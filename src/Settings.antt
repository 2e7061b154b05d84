-- ===== src/Settings.antt =====
-- ConnectionExperiments/experiment_type.h, and the constants of ConnectionExperiments/utils.h.
use rdma_project.Common.{All, ℕ, List, [], ◌∷◌, ◌*◌, ◌^◌, ◌<◌, arith}

pub data DataDirection : Type 0 where
  write read two_sided : DataDirection

pub data Parrallelism : Type 0 where
  single_thread double_thread : Parrallelism

pub data Metric : Type 0 where
  throughput latency all : Metric

pub data Connection : Type 0 where
  rdma rpc tcp : Connection

-- `78 * 10000000`, an `int`.
abbrev pub data_size : ℕ
data_size = 78 * 10000000

abbrev pub num_tuples : ℕ
num_tuples = 10000000

abbrev pub port : ℕ
port = 8001

-- `1024 << 15`.
abbrev pub max_buffer_size : ℕ
max_buffer_size = 1024 * 2 ^ 15

-- Shut, so that no tactic runs the loops that count to it.
pub num_loops : ℕ
num_loops = 100000

pub num_loops_positive : 0 < num_loops
unfolding num_loops
num_loops_positive = omega arith

unfoldable pub latency_buffer_sizes : List ℕ
latency_buffer_sizes =
    8
    ∷ 16
    ∷ 32
    ∷ 64
    ∷ 128
    ∷ 256
    ∷ 512
    ∷ 1024
    ∷ (1024 * 2 ^ 1)
    ∷ (1024 * 2 ^ 2)
    ∷ (1024 * 2 ^ 3)
    ∷ (1024 * 2 ^ 4)
    ∷ (1024 * 2 ^ 5)
    ∷ (1024 * 2 ^ 6)
    ∷ (1024 * 2 ^ 7)
    ∷ (1024 * 2 ^ 8)
    ∷ (1024 * 2 ^ 9)
    ∷ []

unfoldable pub buffer_sizes : List ℕ
buffer_sizes =
    1024
    ∷ (1024 * 2 ^ 1)
    ∷ (1024 * 2 ^ 2)
    ∷ (1024 * 2 ^ 3)
    ∷ (1024 * 2 ^ 4)
    ∷ (1024 * 2 ^ 5)
    ∷ (1024 * 2 ^ 6)
    ∷ (1024 * 2 ^ 7)
    ∷ (1024 * 2 ^ 8)
    ∷ (1024 * 2 ^ 9)
    ∷ (1024 * 2 ^ 10)
    ∷ (1024 * 2 ^ 11)
    ∷ (1024 * 2 ^ 12)
    ∷ (1024 * 2 ^ 13)
    ∷ (1024 * 2 ^ 14)
    ∷ (1024 * 2 ^ 15)
    ∷ []

-- A chunk size that the tests can run with: not 0, and a call's count fits an `int`.
abbrev pub IsChunkSize : ℕ → Type 0
IsChunkSize size = (0 < size) × (size < 2 ^ 31)

pub buffer_sizes-IsChunkSize : All IsChunkSize buffer_sizes
unfolding buffer_sizes
buffer_sizes-IsChunkSize = omega arith

pub latency_buffer_sizes-IsChunkSize : All IsChunkSize latency_buffer_sizes
unfolding latency_buffer_sizes
latency_buffer_sizes-IsChunkSize = omega arith
