-- ===== src/Common/Slices.antt =====
-- Consecutive pieces of a list, and writes of a piece into a buffer.
use Prim.Native.Nat.{ℕ, zero, suc, ◌+◌, ◌≤◌}
use Prim.Native.Nat.add
use mathlib.Core.Path.{◌≡◌, refl, ap, sym, ◌∙◌}
use mathlib.Core.List.{List, [], ◌∷◌, ◌++◌, append-nil, append_assoc}
use native.Mathlib.Omega.{arith}
use rdma_project.Common.Lists.{
  length, take, drop, take-append-drop, length-append, length-take, length-drop,
}

module _ {ℓ} {A : Type ℓ} where
  pub take_all : (n : ℕ) (xs : List A) → length xs ≤ n → take n xs ≡ xs
  take_all zero [] h = refl
  take_all zero (x ∷ xs) h = absurd (omega arith)
  take_all (suc n) [] h = refl
  take_all (suc n) (x ∷ xs) h = ap (◌∷◌ x) (take_all n xs (omega arith))

  pub drop_all : (n : ℕ) (xs : List A) → length xs ≤ n → drop n xs ≡ []
  drop_all zero [] h = refl
  drop_all zero (x ∷ xs) h = absurd (omega arith)
  drop_all (suc n) [] h = refl
  drop_all (suc n) (x ∷ xs) h = drop_all n xs (omega arith)

  pub drop-drop : (m n : ℕ) (xs : List A) → drop m (drop n xs) ≡ drop (n + m) xs
  drop-drop m zero xs = rw add.zero
  drop-drop m (suc n) [] = drop_all m [] (omega arith) ∙ sym (drop_all (suc n + m) [] (omega arith))
  drop-drop m (suc n) (x ∷ xs) = rw add.suc (drop-drop m n xs)

  -- A piece of `m` and the next piece of `n` are a piece of `m + n`.
  pub take-append-take : (m n : ℕ) (xs : List A) → take m xs ++ take n (drop m xs) ≡ take (m + n) xs
  take-append-take zero n xs = rw add.zero
  take-append-take (suc m) n [] =
      take_all n [] (omega arith) ∙ sym (take_all (suc m + n) [] (omega arith))
  take-append-take (suc m) n (x ∷ xs) = rw add.suc (ap (◌∷◌ x) (take-append-take m n xs))

  -- The pieces of `k` and of `r` from index `b` on.
  pub take-drop-append-take :
      (b k r n : ℕ) (xs : List A)
      → k + r ≡ n
      → take k (drop b xs) ++ take r (drop (b + k) xs) ≡ take n (drop b xs)
  take-drop-append-take b k r n xs e =
      rw (← e, ← drop-drop k b xs) (take-append-take k r (drop b xs))

  pub take-append : (n : ℕ) (xs ys : List A) → n ≤ length xs → take n (xs ++ ys) ≡ take n xs
  take-append zero xs ys h = refl
  take-append (suc n) [] ys h = absurd (omega arith)
  take-append (suc n) (x ∷ xs) ys h = ap (◌∷◌ x) (take-append n xs ys (omega arith))

  pub take-append_of_eq : (n : ℕ) (xs ys : List A) → length xs ≡ n → take n (xs ++ ys) ≡ xs
  take-append_of_eq zero [] ys h = refl
  take-append_of_eq zero (x ∷ xs) ys h = absurd (omega arith)
  take-append_of_eq (suc n) [] ys h = absurd (omega arith)
  take-append_of_eq (suc n) (x ∷ xs) ys h = ap (◌∷◌ x) (take-append_of_eq n xs ys (omega arith))

  pub drop-append_of_eq : (n : ℕ) (xs ys : List A) → length xs ≡ n → drop n (xs ++ ys) ≡ ys
  drop-append_of_eq zero [] ys h = refl
  drop-append_of_eq zero (x ∷ xs) ys h = absurd (omega arith)
  drop-append_of_eq (suc n) [] ys h = absurd (omega arith)
  drop-append_of_eq (suc n) (x ∷ xs) ys h = drop-append_of_eq n xs ys (omega arith)

  pub take-drop-append :
      (n : ℕ) (xs : List A) (k : ℕ) → take k (drop n xs) ++ drop (n + k) xs ≡ drop n xs
  take-drop-append n xs k = rw (← drop-drop k n xs) (take-append-drop k (drop n xs))

  -- `memcpy(dst + off, bytes, length bytes)`: what lies outside is kept.
  abbrev pub overwrite : ℕ → List A → List A → List A
  overwrite off bytes dst = take off dst ++ (bytes ++ drop (off + length bytes) dst)

  pub length-overwrite :
      (off : ℕ) (bytes dst : List A)
      → off + length bytes ≤ length dst
      → length (overwrite off bytes dst) ≡ length dst
  length-overwrite off bytes dst h = omega (
    arith,
    length-append (take off dst) (bytes ++ drop (off + length bytes) dst),
    length-append bytes (drop (off + length bytes) dst),
    length-take off dst,
    length-drop (off + length bytes) dst,
  )

  pub overwrite_all :
      (bytes dst : List A) → length bytes ≡ length dst → overwrite 0 bytes dst ≡ bytes
  overwrite_all bytes dst h = rw (drop_all (0 + length bytes) dst (omega arith)) (append-nil bytes)

  pub overwrite_nil : (off : ℕ) (dst : List A) → overwrite off [] dst ≡ dst
  overwrite_nil off dst = let e : off + 0 ≡ off = omega arith in rw e (take-append-drop off dst)

  -- A write behind a finished prefix: `p` is done, `dst` is what it was.
  pub overwrite-append :
      (p bytes dst : List A) (off : ℕ)
      → length p ≡ off
      → overwrite off bytes (p ++ drop off dst) ≡ (p ++ bytes) ++ drop (off + length bytes) dst
  overwrite-append p bytes dst off h =
      rw
        (
          take-append_of_eq off p (drop off dst) h,
          ← drop-drop (length bytes) off (p ++ drop off dst),
          drop-append_of_eq off p (drop off dst) h,
          drop-drop (length bytes) off dst,
        )
        (sym (append_assoc p bytes (drop (off + length bytes) dst)))

  -- Two writes side by side are one.
  pub overwrite-overwrite :
      (b k : ℕ) (xs ys dst : List A)
      → length xs ≡ k
      → b ≤ length dst
      → overwrite (b + k) ys (overwrite b xs dst) ≡ overwrite b (xs ++ ys) dst
  overwrite-overwrite b k xs ys dst e h =
      let first : overwrite b xs dst ≡ (take b dst ++ xs) ++ drop (b + k) dst =
        rw e (sym (append_assoc (take b dst) xs (drop (b + k) dst))) in
      let front : length (take b dst ++ xs) ≡ b + k =
        omega (arith, length-append (take b dst) xs, length-take b dst) in
      let reach : b + k + length ys ≡ b + length (xs ++ ys) = omega (arith, length-append xs ys) in
      rw
        (
          first,
          overwrite-append (take b dst ++ xs) ys dst (b + k) front,
          reach,
          append_assoc,
          append_assoc,
        )
        (ap (λ z. take b dst ++ z) (sym (append_assoc xs ys _)))
