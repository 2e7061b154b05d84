-- ===== src/Queue/Boost/Hang.antt =====
-- What becomes of the value that BoostTests.cpp pushes.
use rdma_project.Common.{ℕ, zero, suc, ◌%◌, ◌^◌, ◌≡◌, refl, ap, ◌∙◌, List, [], ◌∷◌, none, some}
use rdma_project.Queue.Boost.Queues.{GlobalValue, DistributedQueue, IsDistributed}
use rdma_project.Queue.Boost.{
  Line, host, wrote, check_in, queue_size, blocks, out_of_fuel, get, read_loop, push_phase, main,
}

module _ (Q : DistributedQueue) (promised : IsDistributed Q get 0) where
  open promised use {Holds}

  read_loop_lem :
      (fuel : ℕ) (q : Q.State) (v : GlobalValue) (lines : List Line)
      → Holds q
      → read_loop Q 0 fuel q v lines ≡ out_of_fuel
  unfolding read_loop
  read_loop_lem zero q v lines held = refl
  read_loop_lem (suc f) q v lines held =
      let (r, answer, still) = promised.empty-Holds q held in
      rw (read_loop, answer) (read_loop_lem f r v lines still)

  -- On a queue that keeps the library's promises, process 0 never returns, however long it runs: it
  -- pushes a value that it owns itself, and goes round the loop without taking it.
  pub main_hangs : (n fuel : ℕ) → main Q 0 n fuel ≡ out_of_fuel
  unfolding main push_phase get
  main_hangs n fuel =
      let v : GlobalValue = record { processor = 0; value = 0 } in
      let pushed = promised.push-Holds v (Q.synchronize Q.make) refl in
      let there = promised.synchronize-Holds _ (promised.synchronize-Holds _ pushed) in
      let (k, r, answer, still) = promised.size-Holds _ there in
      ap
        (λ a. elim a [
          | none ↦ blocks
          | some b ↦
              read_loop Q 0 fuel b.1 v
                (host 0 n ∷ wrote 0 ∷ check_in ∷ queue_size (b.0 % 2 ^ 32) ∷ [])
        ])
        answer
      ∙ read_loop_lem fuel r v _ still
