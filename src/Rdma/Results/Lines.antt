-- ===== src/Rdma/Results/Lines.antt =====
-- Reading the files of results.
use rdma_project.Common.{
  ℕ, ◌≡◌, ◌==◌, refl, sym, ap, ◌∙◌, List, [], ◌∷◌, ◌++◌, map, All, append_assoc, append-nil, true,
  false, Option, some, none,
}
use rdma_project.Measure.{TestResult}
use rdma_project.Rdma.Results.{
  Printing, newline, write_tp_results_to_file, write_latency_results_to_file,
}

abbrev pub Line : Type 0
Line = List ℕ × List ℕ

-- What the lines of a file hold, each up to its first space and behind it: `word` is the first part
-- when its end has been read, `part` what has been read of the part that comes.
abbrev pub read_part : (word : Option (List ℕ)) (part : List ℕ) → List ℕ → List Line
read_part word part [] = []
read_part none part (c ∷ text) = elim (c == b' ') [
  | true ↦ read_part (some part) [] text
  | false ↦ read_part none (part ++ c ∷ []) text
]
read_part (some word) part (c ∷ text) = elim (c == newline) [
  | true ↦ (word, part) ∷ read_part none [] text
  | false ↦ read_part (some word) (part ++ c ∷ []) text
]

abbrev pub read_lines : List ℕ → List Line
read_lines text = read_part none [] text

-- None of the characters is `c`.
abbrev pub Lacks : ℕ → List ℕ → Type 0
Lacks c text = All (λ d. (d == c) ≡ false) text

read_word :
    (part more text : List ℕ)
    → Lacks b' ' more
    → read_part none part (more ++ b' ' ∷ text) ≡ read_part (some (part ++ more)) [] text
read_word part [] text lacks = ap (λ p. read_part (some p) [] text) (sym (append-nil part))
read_word part (c ∷ more) text lacks =
    ap
      (λ b. elim b [
        | true ↦ read_part (some part) [] (more ++ b' ' ∷ text)
        | false ↦ read_part none (part ++ c ∷ []) (more ++ b' ' ∷ text)
      ])
      lacks.0
    ∙ read_word (part ++ c ∷ []) more text lacks.1
    ∙ ap (λ p. read_part (some p) [] text) (append_assoc part (c ∷ []) more)

read_value :
    (word part more text : List ℕ)
    → Lacks newline more
    → read_part (some word) part (more ++ newline ∷ text)
      ≡ (word, part ++ more) ∷ read_part none [] text
read_value word part [] text lacks =
    ap (λ p. (word, p) ∷ read_part none [] text) (sym (append-nil part))
read_value word part (c ∷ more) text lacks =
    ap
      (λ b. elim b [
        | true ↦ (word, part) ∷ read_part none [] (more ++ newline ∷ text)
        | false ↦ read_part (some word) (part ++ c ∷ []) (more ++ newline ∷ text)
      ])
      lacks.0
    ∙ read_value word (part ++ c ∷ []) more text lacks.1
    ∙ ap (λ p. (word, p) ∷ read_part none [] text) (append_assoc part (c ∷ []) more)

module _ {D : Type 0} (P : Printing D) where
  open P use {print_int, print_double}

  read_line :
      (result : TestResult D) (text : List ℕ)
      → Lacks b' ' (print_int result.buffer_size)
      → Lacks newline (print_double result.value)
      → read_lines
          (print_int result.buffer_size ++ b' ' ∷ (print_double result.value ++ newline ∷ text))
        ≡ (print_int result.buffer_size, print_double result.value) ∷ read_lines text
  read_line result text size_ok value_ok =
      read_word [] (print_int result.buffer_size) _ size_ok
      ∙ read_value (print_int result.buffer_size) [] (print_double result.value) text value_ok

  -- Where no printed int has a space in it and no printed double a newline: a file of throughput
  -- results and a file of latency results, read line by line up to the first space and behind it, give
  -- the printed chunk size and value of every result, in order.
  pub results-read_lines :
      (results : List (TestResult D))
      → ((n : ℕ) → Lacks b' ' (print_int n))
      → ((d : D) → Lacks newline (print_double d))
      → (read_lines (write_tp_results_to_file P results)
          ≡ map (λ r. (print_int r.buffer_size, print_double r.value)) results)
        × (read_lines (write_latency_results_to_file P results)
            ≡ map (λ r. (print_int r.buffer_size, print_double r.value)) results)
  unfolding write_tp_results_to_file write_latency_results_to_file
  results-read_lines [] sizes values = (refl, refl)
  results-read_lines (r ∷ results) sizes values =
      let rest = results-read_lines results sizes values in
      (
        read_line r _ (sizes r.buffer_size) (values r.value)
            ∙ ap (λ ls. (print_int r.buffer_size, print_double r.value) ∷ ls) rest.0,
        read_line r _ (sizes r.buffer_size) (values r.value)
            ∙ ap (λ ls. (print_int r.buffer_size, print_double r.value) ∷ ls) rest.1,
      )
