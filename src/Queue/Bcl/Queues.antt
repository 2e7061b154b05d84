-- ===== src/Queue/Bcl/Queues.antt =====
-- The queue of BCL as the experiments use it, and what they rely on.
use rdma_project.Common.{
  ℕ, ◌+◌, ◌<◌, ◌≤◌, ◌≡◌, List, [], ◌∷◌, ◌++◌, Bool, true, Option, none, some, length, take, drop,
}

-- `BCL::CircularQueue<int>(host, capacity)`. `push` returns whether there was room; `pop` gives none
-- where it returns false.
pub record CircularQueue : Type 1 where
  pub State : Type 0
  pub make : (capacity : ℕ) → State
  pub push : ℕ → State → Bool × State
  pub pop : State → Option ℕ × State

-- A queue of bounded size: first in, first out. A push into a queue with room succeeds, and so does
-- a pop from one that is not empty.
pub record IsFifo (Q : CircularQueue) (capacity : ℕ) : Type 0 where
  pub contents : Q.State → List ℕ
  pub contents-make : contents (Q.make capacity) ≡ []
  pub push-contents :
      (v : ℕ) (q : Q.State)
      → length (contents q) < capacity
      → (Q.push v q).0 ≡ true × (contents (Q.push v q).1 ≡ contents q ++ v ∷ [])
  pub pop-contents :
      (v : ℕ) (vs : List ℕ) (q : Q.State)
      → contents q ≡ v ∷ vs
      → (Q.pop q).0 ≡ some v × (contents (Q.pop q).1 ≡ vs)

-- The same queue by the forms of `push` and `pop` that move a vector at once; `pop` is told how many
-- ints to take.
pub record VectorQueue : Type 1 where
  pub State : Type 0
  pub push : List ℕ → State → Bool × State
  pub pop : ℕ → State → Option (List ℕ) × State

-- First in, first out: a push of a vector for which there is room succeeds, and a pop does just when
-- there are as many ints as it asks for.
pub record IsVectorFifo (Q : VectorQueue) (capacity : ℕ) : Type 0 where
  pub contents : Q.State → List ℕ
  pub push-contents :
      (vs : List ℕ) (q : Q.State)
      → length (contents q) + length vs ≤ capacity
      → (Q.push vs q).0 ≡ true × (contents (Q.push vs q).1 ≡ contents q ++ vs)
  pub pop-contents :
      (n : ℕ) (q : Q.State)
      → n ≤ length (contents q)
      → (Q.pop n q).0 ≡ some (take n (contents q)) × (contents (Q.pop n q).1 ≡ drop n (contents q))
  pub pop-none :
      (n : ℕ) (q : Q.State)
      → length (contents q) < n
      → (Q.pop n q).0 ≡ none × (contents (Q.pop n q).1 ≡ contents q)
