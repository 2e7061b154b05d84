-- ===== src/Queue/Settings.antt =====
-- The constants of QueueExperiments/utils.h, most of which are those of ConnectionExperiments/utils.h.
use rdma_project.Common.{ℕ, List, [], ◌∷◌, ◌*◌, ◌^◌}
use rdma_project.Settings as Connection
use rdma_project.Measure as Measure
use rdma_project.Measure.{Floating}

abbrev pub data_size : ℕ
data_size = Connection.data_size

abbrev pub num_tuples : ℕ
num_tuples = Connection.num_tuples

abbrev pub port : ℕ
port = Connection.port

abbrev pub max_buffer_size : ℕ
max_buffer_size = Connection.max_buffer_size

abbrev pub num_loops : ℕ
num_loops = 1000

-- Numbers of ints.
unfoldable pub buffer_sizes : List ℕ
buffer_sizes =
    1
    ∷ 4
    ∷ 16
    ∷ 32
    ∷ (32 * 2 ^ 1)
    ∷ (32 * 2 ^ 2)
    ∷ (32 * 2 ^ 3)
    ∷ (32 * 2 ^ 4)
    ∷ (32 * 2 ^ 5)
    ∷ (32 * 2 ^ 6)
    ∷ (32 * 2 ^ 7)
    ∷ (32 * 2 ^ 8)
    ∷ []

-- `throughput_test_result` and `latency_test_result`.
abbrev pub TestResult : Type 0 → Type 0
TestResult D = Measure.TestResult D

unfoldable pub calculate_throughput : (F : Floating) → (start stop data_size : ℕ) → F.Double
calculate_throughput F start stop data_size = Measure.calculate_throughput F start stop data_size
