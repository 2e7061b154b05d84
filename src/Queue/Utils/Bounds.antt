-- ===== src/Queue/Utils/Bounds.antt =====
-- Where `GenerateRandomData` of QueueExperiments writes.
use rdma_project.Common.{
  ℕ, suc, ◌%◌, ◌^◌, ◌≡◌, refl, ap, List, [], ◌∷◌, ◌++◌, length, length-append, append_assoc,
  append-nil, sym, ◌∙◌, none, some, arith,
}
use rdma_project.Utils.Letters.Bounds.{letters, store-append, store_end, length-letters}
use rdma_project.Utils.Letters.{store}
use rdma_project.Queue.Utils.{fill, random_data, generate_random_data}

module _ (draw : ℕ → ℕ) where
  fill-letters :
      (drawn : ℕ) (before old after : List ℕ)
      → fill draw drawn (length old) (length before) (before ++ (old ++ after))
        ≡ some (before ++ (letters draw drawn (length old) ++ after))
  unfolding fill
  fill-letters drawn before [] after = refl
  fill-letters drawn before (o ∷ old) after =
      let c = draw drawn % 2 ^ 8 in
      let longer : length (before ++ c ∷ []) ≡ suc (length before) =
        omega (arith, length-append before (c ∷ [])) in
      let first : before ++ c ∷ (old ++ after) ≡ (before ++ c ∷ []) ++ (old ++ after) =
        sym (append_assoc before (c ∷ []) (old ++ after)) in
      let last : (before ++ c ∷ []) ++ (letters draw (suc drawn) (length old) ++ after)
          ≡ before ++ c ∷ (letters draw (suc drawn) (length old) ++ after) =
        append_assoc before (c ∷ []) (letters draw (suc drawn) (length old) ++ after) in
      ap
        (λ r. elim r [
          | none ↦ none
          | some t ↦ fill draw (suc drawn) (length old) (suc (length before)) t
        ])
        (store-append before (old ++ after) o c)
      ∙ ap (λ t. fill draw (suc drawn) (length old) (suc (length before)) t) first
      ∙ ap (λ i. fill draw (suc drawn) (length old) i ((before ++ c ∷ []) ++ (old ++ after)))
          (sym longer)
      ∙ fill-letters (suc drawn) (before ++ c ∷ []) old after
      ∙ ap some last

  -- In an array of exactly `len` characters it writes behind the end.
  random_data_out_of_bounds : (drawn : ℕ) (s : List ℕ) → random_data draw drawn s (length s) ≡ none
  unfolding random_data
  random_data_out_of_bounds drawn s =
      let many = length-letters draw drawn (length s) in
      ap (λ r. elim r [ none ↦ none | some t ↦ store (length s) 0 t ])
        (ap (λ z. fill draw drawn (length s) 0 z) (sym (append-nil s)) ∙ fill-letters drawn [] s [])
      ∙ ap (λ z. store (length s) 0 z) (append-nil (letters draw drawn (length s)))
      ∙ ap (λ i. store i 0 (letters draw drawn (length s))) (sym many)
      ∙ store_end (letters draw drawn (length s)) 0

-- Whatever the length, `GenerateRandomData` writes behind the end of the array that it makes, which
-- has just that length: the NUL has no place in it.
pub generate_random_data_out_of_bounds :
    (draw : ℕ → ℕ) (drawn : ℕ) (new_array : ℕ → List ℕ) (len : ℕ)
    → length (new_array len) ≡ len
    → generate_random_data draw drawn new_array len ≡ none
unfolding generate_random_data
generate_random_data_out_of_bounds draw drawn new_array len sized =
    ap (λ n. random_data draw drawn (new_array len) n) (sym sized)
    ∙ random_data_out_of_bounds draw drawn (new_array len)
