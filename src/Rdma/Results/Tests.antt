-- ===== src/Rdma/Results/Tests.antt =====
-- A file of one result.
use rdma_project.Common.{ℕ, ◌≡◌, refl, List, [], ◌∷◌}
use rdma_project.Measure.{TestResult}
use rdma_project.Rdma.Results.{Printing, write_tp_results_to_file, write_latency_results_to_file}
use rdma_project.Rdma.Results.Lines.{read_lines, results-read_lines}

abbrev printing : Printing ℕ
printing = record { print_int = λ n. b'7' ∷ []; print_double = λ d. b'2' ∷ b'.' ∷ b'5' ∷ [] }

abbrev results : List (TestResult ℕ)
results = record { buffer_size = 7; value = 3 } ∷ []

abbrev in_file : List (List ℕ × List ℕ)
in_file = (b'7' ∷ [], b'2' ∷ b'.' ∷ b'5' ∷ []) ∷ []

results-read_lines_example :
    (read_lines (write_tp_results_to_file printing results) ≡ in_file)
    × (read_lines (write_latency_results_to_file printing results) ≡ in_file)
results-read_lines_example =
    results-read_lines printing results (λ n. (refl, tt)) (λ d. (refl, (refl, (refl, tt))))
