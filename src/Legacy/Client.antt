-- ===== src/Legacy/Client.antt =====
-- ConnectionExperiments/RunClient.cpp. `data.data)`, which does not compile, is read as `data.data()`.
-- A run returns the lines of its results file. The amount of data is an `int` that is not negative.
pub mod Calls
use rdma_project.Common.{ℕ, zero, suc, ◌+◌, ◌-◌, ◌%◌, ◌^◌, List, [], ◌∷◌, Bool, ltb, if◌then◌else◌}
use rdma_project.Settings.{DataDirection, write, read, two_sided, buffer_sizes}
use rdma_project.Measure.{Floating, TestResult}
use rdma_project.Rdma.Verbs.{Op, Test, pure, out_of_fuel, ◌>>=◌, ◌>>◌, emit, now}
use rdma_project.Rdma.Verbs as Verbs
use rdma_project.Rdma.Client.{for_sizes}
use rdma_project.Legacy.Ints.{add, mul, less, to_size}

-- The `for` of `run_read_test` and of `run_write_test`: `offset` is an int, `rem` a `size_t`.
unfoldable pub chunk_loop : (ℕ → Op) → ℕ → (buffer_size rem offset : ℕ) → Test (Unit {0})
chunk_loop call zero buffer_size rem offset = out_of_fuel
chunk_loop call (suc f) buffer_size rem offset =
    if ltb (to_size offset) rem
    then (do emit (call offset); chunk_loop call f buffer_size rem (add offset buffer_size))
    else pure tt

-- The `for` of `run_twosided_test`.
unfoldable pub message_loop : ℕ → (buffer_size data_size x : ℕ) → Test (Unit {0})
message_loop zero buffer_size data_size x = out_of_fuel
message_loop (suc f) buffer_size data_size x =
    if less x data_size
    then (do
      emit (Verbs.receive buffer_size)
      message_loop f buffer_size data_size (add x buffer_size))
    else pure tt

module _ (clock : ℕ → ℕ) (F : Floating) where
  open F use {Double, of_ℕ, divide, pow}

  -- `data_size / time.count()`, the time in seconds.
  unfoldable pub per_second : (start stop data_size : ℕ) → Double
  per_second start stop data_size =
      divide (of_ℕ data_size) (divide (of_ℕ (stop - start)) (pow (of_ℕ 10) (of_ℕ 9)))

  unfoldable pub run_read_test : (buffer_size data_size : ℕ) → Test Double
  run_read_test buffer_size data_size = do
    let rem = to_size data_size - to_size data_size % to_size buffer_size
    start ← now clock
    chunk_loop (λ offset. Verbs.read offset offset (to_size buffer_size)) (suc rem) buffer_size rem
        0
    emit (Verbs.read rem rem (to_size data_size - rem))
    stop ← now clock
    pure (per_second start stop data_size)

  unfoldable pub run_write_test : (buffer_size data_size : ℕ) → Test Double
  run_write_test buffer_size data_size = do
    let rem = to_size data_size - to_size data_size % to_size buffer_size
    start ← now clock
    chunk_loop (λ offset. Verbs.write offset offset (to_size buffer_size)) (suc rem) buffer_size rem
        0
    emit (Verbs.write rem rem (to_size data_size - rem))
    stop ← now clock
    pure (per_second start stop data_size)

  unfoldable pub run_twosided_test : (buffer_size data_size : ℕ) → Test Double
  run_twosided_test buffer_size data_size = do
    emit (Verbs.send 0 1)
    start ← now clock
    message_loop (suc data_size) buffer_size data_size 0
    stop ← now clock
    emit (Verbs.send 0 1)
    pure (per_second start stop data_size)

  -- The `switch` on the direction.
  unfoldable pub run_tests : ℕ → DataDirection → Test (List (TestResult Double))
  run_tests data_size write = do
    emit (Verbs.randomize data_size)
    for_sizes clock F (λ buffer_size. run_write_test buffer_size data_size) buffer_sizes
  run_tests data_size read =
      for_sizes clock F (λ buffer_size. run_read_test buffer_size data_size) buffer_sizes
  run_tests data_size two_sided =
      for_sizes clock F (λ buffer_size. run_twosided_test buffer_size data_size) buffer_sizes

  -- The last send is not waited for.
  unfoldable pub run_client :
      (tuple_size num_tuples : ℕ) → DataDirection → Test (List (TestResult Double))
  run_client tuple_size num_tuples direction = do
    emit Verbs.connect
    results ← run_tests (mul tuple_size num_tuples) direction
    emit (Verbs.send 0 1)
    pure results
