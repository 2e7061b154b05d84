-- ===== src/Measure.antt =====
-- ConnectionExperiments/utils.h: the results of a test and `calculate_throughput`. The arithmetic of
-- `double` is not part of the repository and is a parameter.
use rdma_project.Common.{ℕ, ◌-◌}

pub record Floating : Type 1 where
  pub Double : Type 0
  pub of_ℕ : ℕ → Double
  pub divide : Double → Double → Double
  pub multiply : Double → Double → Double
  pub pow : Double → Double → Double

-- A line of a results file: `throughput_test_result` and `latency_test_result`.
pub record TestResult (D : Type 0) : Type 0 where
  pub buffer_size : ℕ
  pub value : D

module _ (F : Floating) where
  open F use {Double, of_ℕ, divide, multiply, pow}

  -- Clock readings are in nanoseconds, and the later one is not the smaller.
  unfoldable pub calculate_throughput : (start stop data_size : ℕ) → Double
  calculate_throughput start stop data_size =
      multiply (divide (of_ℕ data_size) (of_ℕ (stop - start))) (pow (of_ℕ 10) (of_ℕ 9))

  -- The mean of a latency test of `loops` rounds.
  unfoldable pub mean_latency : (start stop loops : ℕ) → Double
  mean_latency start stop loops = divide (of_ℕ (stop - start)) (of_ℕ loops)
