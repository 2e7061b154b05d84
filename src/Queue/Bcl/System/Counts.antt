-- ===== src/Queue/Bcl/System/Counts.antt =====
-- The calls that processes have still to make: what each stage of BCLTests.cpp leaves, and counts of
-- calls over all processes.
use rdma_project.Common.{
  ℕ, suc, ◌+◌, ◌*◌, ◌≡◌, refl, sym, ap, subst, List, [], ◌∷◌, ◌++◌, map, length, All, arith, some,
}
use rdma_project.Queue.Bcl.{Call, barrier, push, pop}

abbrev pub popping_calls : List Call
popping_calls = pop ∷ pop ∷ pop ∷ pop ∷ pop ∷ barrier ∷ []

abbrev pub Popping : List Call → Type 0
Popping (pop ∷ p) = Popping p
Popping (barrier ∷ p) = p ≡ []
Popping _ = ⊥

abbrev pub Pushing : List Call → Type 0
Pushing (push v ∷ p) = Pushing p
Pushing (barrier ∷ p) = p ≡ popping_calls
Pushing _ = ⊥

-- Pushes, and pops, in front of the next barrier.
abbrev pub push_count : List Call → ℕ
push_count (push v ∷ p) = suc (push_count p)
push_count _ = 0

abbrev pub pop_count : List Call → ℕ
pop_count (pop ∷ p) = suc (pop_count p)
pop_count _ = 0

abbrev pub Ready : List Call → Type 0
Ready (barrier ∷ p) = Pushing p × (push_count p ≡ 5)
Ready _ = ⊥

abbrev pub IsDone : List Call → Type 0
IsDone p = p ≡ []

abbrev pub total : (List Call → ℕ) → List (List Call) → ℕ
total f [] = 0
total f (p ∷ ps) = f p + total f ps

pub total-middle :
    (f : List Call → ℕ) (before after : List (List Call)) (p q : List Call)
    → total f (before ++ p ∷ after) + f q ≡ total f (before ++ q ∷ after) + f p
total-middle f [] after p q = omega arith
total-middle f (b ∷ before) after p q = omega (arith, total-middle f before after p q)

pub length-middle :
    (before after : List (List Call)) (p q : List Call)
    → length (before ++ p ∷ after) ≡ length (before ++ q ∷ after)
length-middle [] after p q = refl
length-middle (b ∷ before) after p q = ap suc (length-middle before after p q)

module _ (P : List Call → Type 0) where
  pub All-middle :
      (before after : List (List Call)) (p : List Call) → All P (before ++ p ∷ after) → P p
  All-middle [] after p a = a.0
  All-middle (b ∷ before) after p a = All-middle before after p a.1

  pub All-replace :
      (before after : List (List Call)) (p q : List Call)
      → All P (before ++ p ∷ after)
      → P q
      → All P (before ++ q ∷ after)
  All-replace [] after p q a h = (h, a.1)
  All-replace (b ∷ before) after p q a h = (a.0, All-replace before after p q a.1 h)

-- What holds of all processes at a barrier.
pub total-barrier :
    (f : List Call → ℕ) (ps : List (List Call))
    → ((p : List Call) → f (barrier ∷ p) ≡ 0)
    → total f (map (◌∷◌ barrier) ps) ≡ 0
total-barrier f [] h = refl
total-barrier f (p ∷ ps) h = omega (arith, h p, total-barrier f ps h)

pub length-barrier : (ps : List (List Call)) → length (map (◌∷◌ barrier) ps) ≡ length ps
length-barrier [] = refl
length-barrier (p ∷ ps) = ap suc (length-barrier ps)

pub Ready-barrier :
    (ps : List (List Call))
    → All Ready (map (◌∷◌ barrier) ps)
    → All Pushing ps × (total push_count ps ≡ 5 * length ps)
Ready-barrier [] a = (tt, refl)
Ready-barrier (p ∷ ps) a =
    let rest = Ready-barrier ps a.1 in ((a.0.0, rest.0), omega (arith, a.0.1, rest.1))

pub Pushing-barrier :
    (ps : List (List Call))
    → All Pushing (map (◌∷◌ barrier) ps)
    → All Popping ps × (total pop_count ps ≡ 5 * length ps)
Pushing-barrier [] a = (tt, refl)
Pushing-barrier (p ∷ ps) a =
    let rest = Pushing-barrier ps a.1 in
    ((subst Popping (sym a.0) refl, rest.0), omega (arith, ap pop_count a.0, rest.1))

pub Popping-barrier : (ps : List (List Call)) → All Popping (map (◌∷◌ barrier) ps) → All IsDone ps
Popping-barrier [] a = tt
Popping-barrier (p ∷ ps) a = (a.0, Popping-barrier ps a.1)

pub IsDone-barrier : (ps : List (List Call)) → All IsDone (map (◌∷◌ barrier) ps) → All IsDone ps
IsDone-barrier [] a = tt
IsDone-barrier (p ∷ ps) a = absurd (cc (a.0))

pub total-IsDone :
    (f : List Call → ℕ) (ps : List (List Call)) → f [] ≡ 0 → All IsDone ps → total f ps ≡ 0
total-IsDone f [] h a = refl
total-IsDone f (p ∷ ps) h a = omega (arith, h, ap f a.0, total-IsDone f ps h a.1)

pub none_left :
    (P : List Call → Type 0) (ps : List (List Call))
    → (P [] → ⊥)
    → All P ps
    → All IsDone ps
    → ps ≡ []
none_left P [] h a d = refl
none_left P (p ∷ ps) h a d = absurd (h (subst P d.0 a.0))

pub map-append : (xs ys : List ℕ) → map some (xs ++ ys) ≡ map some xs ++ map some ys
map-append [] ys = refl
map-append (x ∷ xs) ys = ap (◌∷◌ (some x)) (map-append xs ys)
