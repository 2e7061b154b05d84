-- ===== src/Utils/Letters.antt =====
-- ConnectionExperiments/utils.cpp: `random_data`. The array is a list; a store behind its end gives
-- none. The generator is a parameter: its draws, and how many were made.
pub mod Bounds
use rdma_project.Common.{
  ℕ, zero, suc, ◌+◌, ◌%◌, ◌^◌, List, [], ◌∷◌, Option, none, some, ltb, if◌then◌else◌,
}

-- `s[i] = c`.
unfoldable pub store : ℕ → ℕ → List ℕ → Option (List ℕ)
store i c [] = none
store zero c (b ∷ bs) = some (c ∷ bs)
store (suc i) c (b ∷ bs) = elim (store i c bs) [ none ↦ none | some cs ↦ some (b ∷ cs) ]

-- How a call ends: with the array, with a store behind its end, or with an `int` that cannot count on.
pub data Filled : Type 0 where
  wrote : List ℕ → Filled
  out_of_bounds : Filled
  overflows : Filled

-- The `for`, with `n` rounds left from index `i` on. The index is an `int`, though `len` is a `size_t`.
unfoldable pub fill : (ℕ → ℕ) → ℕ → (n i : ℕ) → List ℕ → Filled
fill draw drawn zero i s = wrote s
fill draw drawn (suc n) i s = elim (store i (draw drawn % 2 ^ 8) s) [
  | none ↦ out_of_bounds
  | some t ↦
      let rest = fill draw (suc drawn) n (suc i) t in
      if ltb (suc i) (2 ^ 31) then rest else overflows
]

-- The NUL goes behind the `len` characters.
unfoldable pub random_data : (ℕ → ℕ) → ℕ → List ℕ → ℕ → Filled
random_data draw drawn s len = elim (fill draw drawn len 0 s) [
  | wrote t ↦ elim (store len 0 t) [ none ↦ out_of_bounds | some u ↦ wrote u ]
  | out_of_bounds ↦ out_of_bounds
  | overflows ↦ overflows
]
