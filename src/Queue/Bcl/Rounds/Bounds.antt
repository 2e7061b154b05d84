-- ===== src/Queue/Bcl/Rounds/Bounds.antt =====
-- What `master` and `worker` of BCLTests.cpp may rely on: the room in the queue, and the ends of the
-- arrays.
use rdma_project.Common.{
  ℕ, zero, suc, ◌+◌, ◌*◌, ◌/◌, ◌%◌, ◌≤◌, ◌<◌, ◌≡◌, refl, ap, List, [], ◌∷◌, ◌++◌, Option, none,
  some, length, All, All-get_or, arith,
}
use rdma_project.Measure.{Floating}
use rdma_project.Queue.Bcl.{queue_size}
use rdma_project.Queue.Utils.{random_int_vector}
use rdma_project.Queue.Bcl.Rounds.{
  num_vecs, Act, barrier, now, push, num_rounds, random_vectors, push_rounds, master,
}

-- The ints that some calls push.
abbrev pub pushed_ints : List Act → ℕ
pushed_ints [] = 0
pushed_ints (push v ∷ p) = length v + pushed_ints p
pushed_ints (_ ∷ p) = pushed_ints p

pushed_ints-append : (p q : List Act) → pushed_ints (p ++ q) ≡ pushed_ints p + pushed_ints q
pushed_ints-append [] q = omega arith
pushed_ints-append (push v ∷ p) q = omega (arith, pushed_ints-append p q)
pushed_ints-append (barrier ∷ p) q = pushed_ints-append p q
pushed_ints-append (now ∷ p) q = pushed_ints-append p q

length-random_int_vector :
    (draw : ℕ → ℕ) (drawn n : ℕ) → length (random_int_vector draw drawn n) ≡ n
unfolding random_int_vector
length-random_int_vector draw drawn zero = refl
length-random_int_vector draw drawn (suc n) = ap suc (length-random_int_vector draw (suc drawn) n)

pub random_vectors_lem :
    (draw : ℕ → ℕ) (drawn n buf_size : ℕ)
    → All (λ v. length v ≡ buf_size) (random_vectors draw drawn n buf_size)
      × (length (random_vectors draw drawn n buf_size) ≡ n)
unfolding random_vectors
random_vectors_lem draw drawn zero buf_size = (tt, refl)
random_vectors_lem draw drawn (suc n) buf_size =
    let rest = random_vectors_lem draw (drawn + buf_size) n buf_size in
    ((length-random_int_vector draw drawn buf_size, rest.0), ap suc rest.1)

push_rounds-pushed_ints :
    (vs : List (List ℕ)) (buf_size n i : ℕ)
    → All (λ v. length v ≡ buf_size) vs
    → length vs ≡ num_vecs
    → pushed_ints (push_rounds vs n i) ≡ n * buf_size
unfolding push_rounds
push_rounds-pushed_ints vs buf_size zero i sized many = omega arith
push_rounds-pushed_ints vs buf_size (suc n) i sized many =
    let this = All-get_or (λ v. length v ≡ buf_size) vs (i % num_vecs) [] sized (omega arith) in
    omega (arith, this, push_rounds-pushed_ints vs buf_size n (suc i) sized many)

-- For buffers of at least one int: all that a run of the master pushes has room in the queue, and one
-- more buffer would not have it.
pub master_fits :
    (F : Floating)
    → (draw : ℕ → ℕ) (drawn start stop buf_size : ℕ) → 0 < buf_size
    → (pushed_ints (master F draw drawn start stop buf_size).0 ≤ queue_size)
      × (queue_size < pushed_ints (master F draw drawn start stop buf_size).0 + buf_size)
unfolding master num_rounds
master_fits F draw drawn start stop buf_size pos =
    let vs = random_vectors draw drawn num_vecs buf_size in
    let sized = random_vectors_lem draw drawn num_vecs buf_size in
    let total = push_rounds-pushed_ints vs buf_size (queue_size / buf_size) 0 sized.0 sized.1 in
    let all_calls =
      pushed_ints-append (push_rounds vs (queue_size / buf_size) 0) (barrier ∷ now ∷ []) in
    (omega (arith, total, all_calls), omega (arith, total, all_calls))

-- Pops that succeed, and pops that give as many ints as were asked for.
abbrev pub given : List (Option (List ℕ)) → ℕ
given [] = 0
given (none ∷ answers) = given answers
given (some v ∷ answers) = suc (given answers)

abbrev pub IsSized : ℕ → Option (List ℕ) → Type 0
IsSized buf_size none = Unit
IsSized buf_size (some v) = length v ≡ buf_size
