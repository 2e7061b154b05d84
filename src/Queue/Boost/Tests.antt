-- ===== src/Queue/Boost/Tests.antt =====
-- Process 0 on a queue that is a list of the values it owns.
use rdma_project.Common.{
  ℕ, suc, ◌≡◌, ◌==◌, refl, List, [], ◌∷◌, some, true, false, if◌then◌else◌, drop, Bool,
}
use rdma_project.Queue.Boost.{get, main, out_of_fuel, default_value}
use rdma_project.Queue.Boost.Queues.{GlobalValue, DistributedQueue, IsDistributed}
use rdma_project.Queue.Boost.Hang.{main_hangs}

abbrev is_empty : List GlobalValue → Bool
is_empty [] = true
is_empty (v ∷ vs) = false

abbrev count : List GlobalValue → ℕ
count [] = 0
count (v ∷ vs) = suc (count vs)

abbrev first_of : List GlobalValue → GlobalValue
first_of [] = default_value
first_of (v ∷ vs) = v

-- The other process adds nothing and has nothing to do.
abbrev local_queue : DistributedQueue
local_queue = record {
  State = List GlobalValue;
  make = [];
  synchronize = λ q. q;
  push = λ v q. if get v == 0 then v ∷ q else q;
  pop = drop 1;
  top = first_of;
  empty = λ q. some (is_empty q, q);
  size = λ q. some (count q, q);
}

abbrev IsKept : List GlobalValue → Type 0
IsKept q = is_empty q ≡ false

local_queue-IsDistributed : IsDistributed local_queue get 0
local_queue-IsDistributed = record {
  Holds = IsKept;
  push-Holds = λ v q mine. rw mine refl;
  synchronize-Holds = λ q held. held;
  empty-Holds = λ q held. (q, rw held refl, held);
  size-Holds = λ q held. (count q, q, refl, held);
}

main_hangs_example : main local_queue 0 2 1000 ≡ out_of_fuel
main_hangs_example = main_hangs local_queue local_queue-IsDistributed 2 1000
