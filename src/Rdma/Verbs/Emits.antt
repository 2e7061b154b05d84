-- ===== src/Rdma/Verbs/Emits.antt =====
-- What a test calls: a rule for each way to compose tests.
use rdma_project.Common.{
  ℕ, ◌≡◌, refl, sym, ap, ◌∙◌, List, [], ◌∷◌, ◌++◌, Option, some, append-nil, append_assoc,
}
use rdma_project.Rdma.Verbs.{Op, Log, Test, and_then, emit, now}

-- The test returns, having made the calls `ops`, with a value of which `P` holds.
pub record Emits {A : Type 0} (s : Log) (ops : List Op) (P : A → Type 0) (r : Option (A × Log))
    : Type 0 where
  pub value : A
  pub last : Log
  pub result : r ≡ some (value, last)
  pub trace : last.ops ≡ s.ops ++ ops
  pub holds : P value

abbrev pub Any : {A : Type 0} → A → Type 0
Any _ = Unit {0}

module _ {A B : Type 0} {P : A → Type 0} {Q : B → Type 0} where
  pub bind :
      (s : Log) (xs ys : List Op) {r : Option (A × Log)} (k : A → Test B)
      → Emits s xs P r
      → ((a : A) (t : Log) → P a → Emits t ys Q (k a t))
      → Emits s (xs ++ ys) Q (and_then r k)
  bind s xs ys k e next =
      let rest = next e.value e.last e.holds in
      record {
        value = rest.value;
        last = rest.last;
        result = rw e.result rest.result;
        trace = rest.trace ∙ ap (λ z. z ++ ys) e.trace ∙ append_assoc s.ops xs ys;
        holds = rest.holds;
      }

pub returns : {A : Type 0} {P : A → Type 0} (s : Log) (a : A) → P a → Emits s [] P (some (a, s))
returns s a p = record {
  value = a;
  last = s;
  result = refl;
  trace = sym (append-nil s.ops);
  holds = p;
}

pub emit_lem : (op : Op) (s : Log) → Emits s (op ∷ []) Any (emit op s)
unfolding emit
emit_lem op s = record { value = tt; last = _; result = refl; trace = refl; holds = tt }

pub now_lem : (clock : ℕ → ℕ) (s : Log) → Emits s [] Any (now clock s)
unfolding now
now_lem clock s = record {
  value = _;
  last = _;
  result = refl;
  trace = sym (append-nil s.ops);
  holds = tt;
}

-- The same calls, written another way.
pub reshape :
    {A : Type 0} {P : A → Type 0} {s : Log} {xs ys : List Op} {r : Option (A × Log)}
    → xs ≡ ys
    → Emits s xs P r
    → Emits s ys P r
reshape p e = rw (← p) e
