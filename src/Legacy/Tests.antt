-- ===== src/Legacy/Tests.antt =====
-- Runs of the first experiments on concrete sizes.
use rdma_project.Common.{ℕ, ◌*◌, ◌/◌, ◌^◌, ◌⊎◌, ◌≢◌, arith}
use rdma_project.Settings.{DataDirection}
use rdma_project.Measure.{Floating}
use rdma_project.Rdma.System.{System, Step, here, IsFinished, start}
use rdma_project.Legacy.Agreement.{client_calls, server_calls, one_sided_no_deadlock}
use rdma_project.Legacy.TwoSided.{two_sided_never_runs}

abbrev clock : ℕ → ℕ
clock t = 10 * t

abbrev floats : Floating
floats = record { Double = ℕ; of_ℕ = λ n. n; divide = ◌/◌; multiply = ◌*◌; pow = ◌^◌ }

-- A run that begins, for 100 tuples of 8 bytes.
abbrev begin : DataDirection → System
begin direction =
    start (client_calls clock floats 8 100 direction) (server_calls clock floats 8 100 direction)

write_first : DataDirection.write ≢ DataDirection.two_sided
write_first = cc

one_sided_no_deadlock_example :
    IsFinished (begin DataDirection.write) ⊎ ((u : System) × Step (begin DataDirection.write) u)
one_sided_no_deadlock_example =
    one_sided_no_deadlock clock floats 8 100 DataDirection.write write_first (omega arith) here

two_sided_never_runs_example : ¬ IsFinished (begin DataDirection.two_sided)
two_sided_never_runs_example =
    two_sided_never_runs clock floats 8 100 (omega arith) (omega arith) here
