-- ===== src/Queue/Bcl/Output.antt =====
-- BCLTests.cpp: `prints` and `loud_barrier`, as what they do in order. The name of the host and the
-- printing of ints are parameters.
use rdma_project.Common.{ℕ, suc, List, [], ◌∷◌, ◌++◌}

pub data Event : Type 0 where
  printed : (text : List ℕ) → Event
  barrier : Event

module _ (hostname : List ℕ) (print_int : ℕ → List ℕ) where
  -- The name of the host in brackets, the text, and a newline.
  unfoldable pub prints : List ℕ → List Event
  prints message = printed (b'[' ∷ (hostname ++ b']' ∷ b':' ∷ b' ' ∷ (message ++ 10 ∷ []))) ∷ []

  -- The events, and the next value of the static `barrier_num`, which is 0 at first.
  unfoldable pub loud_barrier : (barrier_num : ℕ) → List Event × ℕ
  loud_barrier barrier_num =
      let entering =
        b'E' ∷ b'n' ∷ b't' ∷ b'e' ∷ b'r' ∷ b'i' ∷ b'n' ∷ b'g' ∷ b' ' ∷ print_int barrier_num in
      let exiting = b'E' ∷ b'x' ∷ b'i' ∷ b't' ∷ b'i' ∷ b'n' ∷ b'g' ∷ b' ' ∷ print_int barrier_num in
      (prints entering ++ barrier ∷ prints exiting, suc barrier_num)
