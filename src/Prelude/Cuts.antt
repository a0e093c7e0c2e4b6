-- ===== src/Prelude/Cuts.antt =====
-- Lemmas on `take` and `drop`.
use order_matching_machine.Prelude.{
  ℕ, zero, suc, ◌+◌, ◌≤◌, min, ◌≡◌, refl, sym, ◌∙◌, ◌⊎◌, inl, inr, ap, List, [], ◌∷◌, ◌++◌, arith,
  All, length, take, drop,
}

le_cases : (n k : ℕ) → (n ≤ k) ⊎ (k ≤ n)
le_cases n k = ground arith

module _ {ℓ} {A : Type ℓ} where
  pub length-take_le : (n : ℕ) (xs : List A) → n ≤ length xs → length (take n xs) ≡ n
  length-take_le zero xs h = refl
  length-take_le (suc n) [] h = absurd (omega arith)
  length-take_le (suc n) (x ∷ xs) h = ap suc (length-take_le n xs (omega arith))

  pub take-min : (n : ℕ) (xs : List A) → take (min (length xs) n) xs ≡ take n xs
  take-min zero xs = let none_taken : min (length xs) 0 ≡ 0 = omega arith in rw none_taken refl
  take-min (suc n) [] = let none_left : min 0 (suc n) ≡ 0 = omega arith in rw none_left refl
  take-min (suc n) (x ∷ xs) =
      let more : min (length (x ∷ xs)) (suc n) ≡ suc (min (length xs) n) = omega arith in
      rw more (ap (λ l. x ∷ l) (take-min n xs))

  -- A cut behind a prefix keeps the prefix.
  pub take-append_ge : (n : ℕ) (xs ys : List A) → take (length xs + n) (xs ++ ys) ≡ xs ++ take n ys
  take-append_ge n [] ys = let none_more : 0 + n ≡ n = omega arith in rw none_more refl
  take-append_ge n (x ∷ xs) ys =
      let one_more : suc (length xs) + n ≡ suc (length xs + n) = omega arith in
      rw one_more (ap (λ l. x ∷ l) (take-append_ge n xs ys))

  pub take_all : (n : ℕ) (xs : List A) → length xs ≤ n → take n xs ≡ xs
  take_all zero [] h = refl
  take_all zero (x ∷ xs) h = absurd (omega arith)
  take_all (suc n) [] h = refl
  take_all (suc n) (x ∷ xs) h = ap (λ l. x ∷ l) (take_all n xs (omega arith))

  pub length-take-le : (n : ℕ) (xs : List A) → length (take n xs) ≤ length xs
  length-take-le zero xs = omega arith
  length-take-le (suc n) [] = omega arith
  length-take-le (suc n) (x ∷ xs) = omega (arith, length-take-le n xs)

  pub take_nil : (n : ℕ) → take {A = A} n [] ≡ []
  take_nil zero = refl
  take_nil (suc n) = refl

  pub take-take : (n k : ℕ) (xs : List A) → take n (take k xs) ≡ take (min n k) xs
  take-take zero k xs = let none_taken : min 0 k ≡ 0 = omega arith in rw none_taken refl
  take-take (suc n) zero xs = let none_left : min (suc n) 0 ≡ 0 = omega arith in rw none_left refl
  take-take (suc n) (suc k) [] = sym (take_nil (min (suc n) (suc k)))
  take-take (suc n) (suc k) (x ∷ xs) =
      let more : min (suc n) (suc k) ≡ suc (min n k) = omega arith in
      rw more (ap (λ l. x ∷ l) (take-take n k xs))

  pub take-drop : (n : ℕ) (xs : List A) → take n xs ++ drop n xs ≡ xs
  take-drop zero xs = refl
  take-drop (suc n) [] = refl
  take-drop (suc n) (x ∷ xs) = ap (λ l. x ∷ l) (take-drop n xs)

  drop_nil : (n : ℕ) → [] ≡ drop {A = A} n []
  drop_nil zero = refl
  drop_nil (suc n) = refl

  pub drop-drop : (m n : ℕ) (xs : List A) → drop (m + n) xs ≡ drop n (drop m xs)
  drop-drop zero n xs = let none_more : 0 + n ≡ n = omega arith in rw none_more refl
  drop-drop (suc m) n [] =
      let one_more : suc m + n ≡ suc (m + n) = omega arith in rw one_more (drop_nil n)
  drop-drop (suc m) n (x ∷ xs) =
      let one_more : suc m + n ≡ suc (m + n) = omega arith in rw one_more (drop-drop m n xs)

  pub drop_past : (n : ℕ) (xs : List A) → length xs ≤ n → drop n xs ≡ []
  drop_past n [] h = sym (drop_nil n)
  drop_past zero (x ∷ xs) h = absurd (omega arith)
  drop_past (suc n) (x ∷ xs) h = drop_past n xs (omega arith)

  pub drop-min : (n : ℕ) (xs : List A) (m : ℕ) → m ≡ min n (length xs) → drop m xs ≡ drop n xs
  drop-min n xs m e = elim (le_cases n (length xs)) [
    | inl h ↦ ap (λ k. drop k xs) (omega (arith, e, h))
    | inr h ↦ drop_past m xs (omega (arith, e, h)) ∙ sym (drop_past n xs h)
  ]

module _ {ℓ κ} {A : Type ℓ} (P : A → Type κ) where
  pub All-take : (n : ℕ) (xs : List A) → All P xs → All P (take n xs)
  All-take zero xs h = tt
  All-take (suc n) [] h = tt
  All-take (suc n) (x ∷ xs) h = (h.0, All-take n xs h.1)

  pub All-drop : (n : ℕ) (xs : List A) → All P xs → All P (drop n xs)
  All-drop zero xs h = h
  All-drop (suc n) [] h = tt
  All-drop (suc n) (x ∷ xs) h = All-drop n xs h.1
