-- ===== src/Rdma/Results.antt =====
-- ConnectionExperiments/RdmaClient.cpp: the files of results. How numbers are printed is not part of
-- the repository and is a parameter.
pub mod Lines
mod Tests
use Prim.Native.String.{String}
use rdma_project.Common.{ℕ, List, [], ◌∷◌, ◌++◌}
use rdma_project.Measure.{Floating, TestResult}

-- `operator<<` of a `std::ofstream`.
pub record Printing (D : Type 0) : Type 0 where
  pub print_int : ℕ → List ℕ
  pub print_double : D → List ℕ

-- `endl`.
abbrev pub newline : ℕ
newline = 10

abbrev pub read_throughput_file_name : String
read_throughput_file_name = "rdma_read_throughput.txt"

abbrev pub read_latency_file_name : String
read_latency_file_name = "rdma_read_latency.txt"

abbrev pub write_throughput_file_name : String
write_throughput_file_name = "rdma_write_throughput.txt"

abbrev pub write_latency_file_name : String
write_latency_file_name = "rdma_write_latency.txt"

abbrev pub two_sided_throughput_file_name : String
two_sided_throughput_file_name = "rdma_two_sided_throughput.txt"

abbrev pub two_sided_latency_file_name : String
two_sided_latency_file_name = "rdma_two_sided_latency.txt"

module _ {D : Type 0} (P : Printing D) where
  open P use {print_int, print_double}

  -- What is put in the file.
  unfoldable pub write_tp_results_to_file : List (TestResult D) → List ℕ
  write_tp_results_to_file [] = []
  write_tp_results_to_file (result ∷ results) =
      print_int result.buffer_size
      ++ b' ' ∷ (print_double result.value ++ newline ∷ write_tp_results_to_file results)

  unfoldable pub write_latency_results_to_file : List (TestResult D) → List ℕ
  write_latency_results_to_file [] = []
  write_latency_results_to_file (result ∷ results) =
      print_int result.buffer_size
      ++ b' ' ∷ (print_double result.value ++ newline ∷ write_latency_results_to_file results)

  -- The files that `run_throughput_tests` and `run_latency_tests` leave, from what their runs return.
  unfoldable pub throughput_files :
      (read_results write_results two_sided_results : List (TestResult D)) → List (String × List ℕ)
  throughput_files read_results write_results two_sided_results =
      (read_throughput_file_name, write_tp_results_to_file read_results)
      ∷ (write_throughput_file_name, write_tp_results_to_file write_results)
      ∷ (two_sided_throughput_file_name, write_tp_results_to_file two_sided_results)
      ∷ []

  unfoldable pub latency_files :
      (read_results write_results two_sided_results : List (TestResult D)) → List (String × List ℕ)
  latency_files read_results write_results two_sided_results =
      (read_latency_file_name, write_latency_results_to_file read_results)
      ∷ (write_latency_file_name, write_latency_results_to_file write_results)
      ∷ (two_sided_latency_file_name, write_latency_results_to_file two_sided_results)
      ∷ []
