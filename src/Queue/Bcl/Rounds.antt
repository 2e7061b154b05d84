-- ===== src/Queue/Bcl/Rounds.antt =====
-- BCLTests.cpp: `master` and `worker`, of which the first pushes vectors of ints and the second takes
-- them. The quotient of two doubles that `floor` rounds down is the quotient of natural numbers: both
-- numbers are small. Readings of the clock are parameters.
pub mod Bounds
use rdma_project.Common.{
  ℕ, zero, suc, ◌+◌, ◌-◌, ◌*◌, ◌/◌, ◌%◌, ◌^◌, List, [], ◌∷◌, ◌++◌, Option, none, some, length, take,
  replicate, get_or, overwrite, leb, ◌&&◌, if◌then◌else◌,
}
use rdma_project.Measure.{Floating}
use rdma_project.Queue.Bcl.{queue_size}
use rdma_project.Queue.Utils.{random_int_vector}

abbrev pub num_vecs : ℕ
num_vecs = 24

abbrev pub sizeof_int : ℕ
sizeof_int = 4

-- What the master does outside of its own memory.
pub data Act : Type 0 where
  barrier : Act
  now : Act
  push : (value : List ℕ) → Act

-- The line that a run prints and writes to its file, without its words.
pub record Message (D : Type 0) : Type 0 where
  pub size : ℕ
  pub latency : D
  pub throughput : D
  pub ops : D

-- The rounds of either side for buffers of `buf_size` ints: `num_pushes` and `num_pops`.
unfoldable pub num_rounds : ℕ → ℕ
num_rounds buf_size = queue_size / buf_size

module _ (F : Floating) where
  open F use {of_ℕ, divide, multiply}

  unfoldable pub message : (start stop buf_size : ℕ) → Message F.Double
  message start stop buf_size =
      let duration = of_ℕ (stop - start) in
      let rounds = num_rounds buf_size in
      record {
        size = buf_size * sizeof_int;
        latency = divide duration (of_ℕ rounds);
        throughput =
            multiply (divide (of_ℕ (buf_size * sizeof_int * rounds)) duration) (of_ℕ (10 ^ 9));
        ops = multiply (divide (of_ℕ rounds) duration) (of_ℕ (10 ^ 9));
      }

-- The `for` that fills `vs`.
unfoldable pub random_vectors : (ℕ → ℕ) → (drawn n buf_size : ℕ) → List (List ℕ)
random_vectors draw drawn zero buf_size = []
random_vectors draw drawn (suc n) buf_size =
    random_int_vector draw drawn buf_size ∷ random_vectors draw (drawn + buf_size) n buf_size

-- The `for` that pushes, with `n` rounds left, the next of which is number `i`.
unfoldable pub push_rounds : List (List ℕ) → (n i : ℕ) → List Act
push_rounds vs zero i = []
push_rounds vs (suc n) i = push (get_or vs (i % num_vecs) []) ∷ push_rounds vs n (suc i)

unfoldable pub master :
    (F : Floating) → (draw : ℕ → ℕ) (drawn start stop buf_size : ℕ) → List Act × Message F.Double
master F draw drawn start stop buf_size =
    let vs = random_vectors draw drawn num_vecs buf_size in
    (
      barrier ∷ now ∷ (push_rounds vs (num_rounds buf_size) 0 ++ barrier ∷ now ∷ []),
      message F start stop buf_size,
    )

-- An int in memory, lowest byte first.
unfoldable pub bytes : List ℕ → List ℕ
bytes [] = []
bytes (v ∷ vs) =
    v % 2 ^ 8 ∷ (v / 2 ^ 8) % 2 ^ 8 ∷ (v / 2 ^ 16) % 2 ^ 8 ∷ (v / 2 ^ 24) % 2 ^ 8 ∷ bytes vs

-- `memcpy` of `n` bytes to `offset`, which leaves no result where it would read or write behind the
-- end of an array.
unfoldable pub memcpy : (offset n : ℕ) (source target : List ℕ) → Option (List ℕ)
memcpy offset n source target =
    if leb (offset + n) (length target) && leb n (length source)
    then some (overwrite offset (take n source) target)
    else none

-- How the rounds of the worker end: with the bytes of `data`, waiting for a pop that succeeds, or
-- outside of an array.
pub data WorkerEnd : Type 0 where
  finished waits : List ℕ → WorkerEnd
  out_of_bounds : WorkerEnd

-- The `for` of `worker`. The pops give the answers in order, none where `pop` returns false, which
-- tries again.
unfoldable pub pop_rounds :
    (buf_size n i : ℕ) → (answers : List (Option (List ℕ))) → List ℕ → WorkerEnd
pop_rounds buf_size zero i answers d = finished d
pop_rounds buf_size (suc n) i [] d = waits d
pop_rounds buf_size (suc n) i (none ∷ answers) d = pop_rounds buf_size (suc n) i answers d
pop_rounds buf_size (suc n) i (some value ∷ answers) d =
    elim (memcpy (i * buf_size % num_vecs * sizeof_int) buf_size (bytes value) d) [
      | none ↦ out_of_bounds
      | some e ↦ pop_rounds buf_size n (suc i) answers e
    ]

unfoldable pub worker :
    (F : Floating)
    → (start stop buf_size : ℕ) → (answers : List (Option (List ℕ))) → WorkerEnd × Message F.Double
worker F start stop buf_size answers = (
  pop_rounds buf_size (num_rounds buf_size) 0 answers
      (replicate (buf_size * num_vecs * sizeof_int) 0),
  message F start stop buf_size,
)
