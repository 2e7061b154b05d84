-- ===== src/Utils/Letters/Bounds.antt =====
-- Where `random_data` writes.
use rdma_project.Common.{
  Option, Bool, true, false, ltb, lt→ltb, le→ltb_false, dec_lt, ◌<◌, ◌+◌, if◌then◌else◌, ℕ, zero,
  suc, ◌%◌, ◌^◌, ◌≡◌, refl, ap, List, [], ◌∷◌, ◌++◌, length, length-append, append_assoc, sym, ◌∙◌,
  none, some, arith,
}
use rdma_project.Utils.Letters.{store, Filled, wrote, out_of_bounds, overflows, fill, random_data}

-- `n` characters, from draw `drawn` on.
abbrev pub letters : (ℕ → ℕ) → ℕ → ℕ → List ℕ
letters draw drawn zero = []
letters draw drawn (suc n) = draw drawn % 2 ^ 8 ∷ letters draw (suc drawn) n

pub store-append :
    (before after : List ℕ) (b c : ℕ)
    → store (length before) c (before ++ b ∷ after) ≡ some (before ++ c ∷ after)
unfolding store
store-append [] after b c = refl
store-append (x ∷ before) after b c = rw (store-append before after b c) refl

pub store_end : (bs : List ℕ) (c : ℕ) → store (length bs) c bs ≡ none
unfolding store
store_end [] c = refl
store_end (b ∷ bs) c = rw (store_end bs c) refl

pub length-letters : (draw : ℕ → ℕ) (drawn n : ℕ) → length (letters draw drawn n) ≡ n
length-letters draw drawn zero = refl
length-letters draw drawn (suc n) = ap suc (length-letters draw (suc drawn) n)

when : {t : Bool} (x y : Filled) → t ≡ true → (if t then x else y) ≡ x
when {t} x y e = ap (λ b. if b then x else y) e

unless : {t : Bool} (x y : Filled) → t ≡ false → (if t then x else y) ≡ y
unless {t} x y e = ap (λ b. if b then x else y) e

-- The end of a call, by its last store.
abbrev end_store : Option (List ℕ) → Filled
end_store none = out_of_bounds
end_store (some u) = wrote u

module _ (draw : ℕ → ℕ) where
  fill-letters :
      (drawn : ℕ) (before old after : List ℕ)
      → length before < 2 ^ 31
      → fill draw drawn (length old) (length before) (before ++ (old ++ after)) ≡ (
          if ltb (length before + length old) (2 ^ 31)
          then wrote (before ++ (letters draw drawn (length old) ++ after))
          else overflows)
  unfolding fill
  fill-letters drawn before [] after small = sym (
      ap (λ b. if b then wrote (before ++ after) else overflows)
        (lt→ltb (length before + 0) (2 ^ 31) (omega arith)))
  fill-letters drawn before (o ∷ old) after small =
      let c = draw drawn % 2 ^ 8 in
      let rest = letters draw (suc drawn) (length old) ++ after in
      let longer : length (before ++ c ∷ []) ≡ suc (length before) =
        omega (arith, length-append before (c ∷ [])) in
      let first : before ++ c ∷ (old ++ after) ≡ (before ++ c ∷ []) ++ (old ++ after) =
        sym (append_assoc before (c ∷ []) (old ++ after)) in
      let total : length (before ++ c ∷ []) + length old ≡ length before + suc (length old) =
        omega (arith, longer) in
      let stored =
        ap
          (λ r. elim r [
            | none ↦ out_of_bounds
            | some t ↦
                if ltb (suc (length before)) (2 ^ 31)
                then fill draw (suc drawn) (length old) (suc (length before)) t
                else overflows
          ])
          (store-append before (old ++ after) o c) in
      stored ∙ (elim (dec_lt (suc (length before)) (2 ^ 31)) [
        | yes lt ↦
            when _ _ (lt→ltb (suc (length before)) (2 ^ 31) lt)
            ∙ ap (fill draw (suc drawn) (length old) (suc (length before))) first
            ∙ ap (λ i. fill draw (suc drawn) (length old) i ((before ++ c ∷ []) ++ (old ++ after)))
                (sym longer)
            ∙ fill-letters (suc drawn) (before ++ c ∷ []) old after (omega (arith, longer, lt))
            ∙ ap (λ n. if ltb n (2 ^ 31) then wrote ((before ++ c ∷ []) ++ rest) else overflows)
                total
            ∙ ap
                (λ z.
                  if ltb (length before + suc (length old)) (2 ^ 31) then wrote z else overflows)
                (append_assoc before (c ∷ []) rest)
        | no past ↦
            unless _ _ (le→ltb_false (suc (length before)) (2 ^ 31) (omega (arith, past)))
            ∙ sym (
                unless _ _
                  (le→ltb_false (length before + suc (length old)) (2 ^ 31) (omega (arith, past))))
      ])

  -- In an array of more than `len` characters `random_data` writes `len` random ones and a NUL behind
  -- them, and nothing else, when `len` is less than 2^31; otherwise its index, an `int`, overflows.
  pub random_data-letters :
      (drawn : ℕ) (old : List ℕ) (b : ℕ) (after : List ℕ)
      → random_data draw drawn (old ++ b ∷ after) (length old) ≡ (
          if ltb (length old) (2 ^ 31)
          then wrote (letters draw drawn (length old) ++ 0 ∷ after)
          else overflows)
  unfolding random_data
  random_data-letters drawn old b after =
      let size = length old in
      let many = length-letters draw drawn size in
      let end_with : Filled → Filled = λ r. elim r [
        | wrote t ↦ end_store (store size 0 t)
        | out_of_bounds ↦ out_of_bounds
        | overflows ↦ overflows
      ] in
      let front = fill-letters drawn [] old (b ∷ after) (omega arith) in
      elim (dec_lt size (2 ^ 31)) [
        | yes lt ↦
            ap end_with (front ∙ when _ _ (lt→ltb (0 + size) (2 ^ 31) (omega (arith, lt))))
            ∙ ap (λ i. end_store (store i 0 (letters draw drawn size ++ b ∷ after))) (sym many)
            ∙ ap end_store (store-append (letters draw drawn size) after b 0)
            ∙ sym (when _ _ (lt→ltb size (2 ^ 31) lt))
        | no past ↦
            ap end_with
              (front ∙ unless _ _ (le→ltb_false (0 + size) (2 ^ 31) (omega (arith, past))))
            ∙ sym (unless _ _ (le→ltb_false size (2 ^ 31) (omega (arith, past))))
      ]
