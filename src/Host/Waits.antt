-- ===== src/Host/Waits.antt =====
-- A run that waits for bytes to arrive: what it has sent by then; with a rule for each way to compose
-- runs.
use rdma_project.Common.{ℕ, ◌≤◌, ◌≡◌, refl, ◌∙◌, List, [], ◌++◌, append_assoc, append-nil}
use rdma_project.Host.{Process, Outcome, blocked, Cmd, and_then}
use rdma_project.Host.Effect.{Effect, after}

pub record Waits {A : Type 0} (s : Process) (bytes : List ℕ) (r : Outcome A) : Type 0 where
  pub waiting : Process
  pub result : r ≡ blocked waiting
  pub sent : waiting.outbound ≡ s.outbound ++ bytes

pub waits_now : {A : Type 0} {s : Process} {r : Outcome A} → r ≡ blocked s → Waits s [] r
waits_now {A} {s} e = record { waiting = s; result = e; sent = rw (append-nil s.outbound) refl }

pub reshape :
    {A : Type 0} {s : Process} {xs ys : List ℕ} {r : Outcome A}
    → xs ≡ ys
    → Waits s xs r
    → Waits s ys r
reshape e w = rw (← e) w

module _ {A B : Type 0} where
  -- What comes behind a run that waits is not reached.
  pub in_first :
      {s : Process} {bytes : List ℕ} {r : Outcome A} (k : A → Cmd B)
      → Waits s bytes r
      → Waits s bytes (and_then r k)
  in_first k w = record { waiting = w.waiting; result = rw (w.result) refl; sent = w.sent }

  -- A run that returns, and one behind it that waits.
  pub bind_at :
      {P : A → Type 0} (s : Process) (xs ys : List ℕ) (n f : ℕ) {r : Outcome A} (k : A → Cmd B)
      (e : Effect s xs n f P r)
      → Waits (after s xs n f e.last) ys (k e.value (after s xs n f e.last))
      → Waits s (xs ++ ys) (and_then r k)
  bind_at s xs ys n f k e w = record {
    waiting = w.waiting;
    result = rw e.result w.result;
    sent = w.sent ∙ append_assoc s.outbound xs ys;
  }

  pub bind :
      {P : A → Type 0} (s : Process) (xs ys : List ℕ) (n f : ℕ) {r : Outcome A} (k : A → Cmd B)
      → Effect s xs n f P r
      → ((a : A) (c : ℕ) → s.calls ≤ c → P a → Waits (after s xs n f c) ys (k a (after s xs n f c)))
      → Waits s (xs ++ ys) (and_then r k)
  bind s xs ys n f k e next = bind_at s xs ys n f k e (next e.value e.last e.later e.holds)
