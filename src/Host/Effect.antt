-- ===== src/Host/Effect.antt =====
-- The effect of a run that returns: what it sent, how much it read from the stream, how many files
-- it left open, and what holds of its result; with a rule for each way to compose runs.
use native.Mathlib.Nat.{add-zero, add_assoc}
use rdma_project.Common.{
  ℕ, ◌+◌, ◌≤◌, ◌≡◌, refl, sym, ap, ◌∙◌, List, [], ◌++◌, drop, arith, append_assoc, append-nil,
  drop-drop,
}
use rdma_project.Host.{Process, Outcome, done, Cmd, and_then}

abbrev pub after : Process → List ℕ → ℕ → ℕ → ℕ → Process
after s bytes n opened c = record {
  outbound = s.outbound ++ bytes;
  inbound = drop n s.inbound;
  fds = s.fds + opened;
  calls = c;
}

pub record Effect {A : Type 0} (s : Process) (bytes : List ℕ) (n opened : ℕ) (P : A → Type 0)
    (r : Outcome A) : Type 0 where
  pub value : A
  pub last : ℕ
  pub later : s.calls ≤ last
  pub holds : P value
  pub result : r ≡ done value (after s bytes n opened last)

pub after-after :
    (s : Process) (xs ys : List ℕ) (n m f g c d : ℕ)
    → after (after s xs n f c) ys m g d ≡ after s (xs ++ ys) (n + m) (f + g) d
after-after s xs ys n m f g c d =
    rw (append_assoc s.outbound xs ys, drop-drop m n s.inbound, add_assoc s.fds f g) refl

pub after_nothing : (s : Process) → after s [] 0 0 s.calls ≡ s
after_nothing s = rw (append-nil s.outbound, add-zero s.fds) refl

module _ {A B : Type 0} {P : A → Type 0} {Q : B → Type 0} where
  -- One run behind another.
  pub bind_at :
      (s : Process) (xs ys : List ℕ) (n m f g : ℕ) {r : Outcome A} (k : A → Cmd B)
      (e : Effect s xs n f P r)
      → Effect (after s xs n f e.last) ys m g Q (k e.value (after s xs n f e.last))
      → Effect s (xs ++ ys) (n + m) (f + g) Q (and_then r k)
  bind_at s xs ys n m f g k e rest = record {
    value = rest.value;
    last = rest.last;
    later = omega (arith, e.later, rest.later);
    holds = rest.holds;
    result =
        rw e.result
          (rest.result ∙ ap (done rest.value) (after-after s xs ys n m f g e.last rest.last));
  }

  -- The same, where the second run has its effect for every result of the first.
  pub bind :
      (s : Process) (xs ys : List ℕ) (n m f g : ℕ) {r : Outcome A} (k : A → Cmd B)
      → Effect s xs n f P r
      → ((a : A) (c : ℕ)
          → s.calls ≤ c
          → P a
          → Effect (after s xs n f c) ys m g Q (k a (after s xs n f c)))
      → Effect s (xs ++ ys) (n + m) (f + g) Q (and_then r k)
  bind s xs ys n m f g k e next = bind_at s xs ys n m f g k e (next e.value e.last e.later e.holds)

module _ {A : Type 0} where
  pub returns : {P : A → Type 0} (s : Process) (a : A) → P a → Effect s [] 0 0 P (done a s)
  returns s a p = record {
    value = a;
    last = s.calls;
    later = omega arith;
    holds = p;
    result = ap (done a) (sym (after_nothing s));
  }

  -- The same effect, written another way.
  pub reshape :
      {P : A → Type 0} {s : Process} {xs ys : List ℕ} {n m f g : ℕ} {r : Outcome A}
      → xs ≡ ys
      → n ≡ m
      → f ≡ g
      → Effect s xs n f P r
      → Effect s ys m g P r
  reshape p q o e = rw (← p, ← q, ← o) e

  pub weaken :
      {P Q : A → Type 0} {s : Process} {xs : List ℕ} {n f : ℕ} {r : Outcome A}
      → ((a : A) → P a → Q a)
      → Effect s xs n f P r
      → Effect s xs n f Q r
  weaken h e = record {
    value = e.value;
    last = e.last;
    later = e.later;
    holds = h e.value e.holds;
    result = e.result;
  }
