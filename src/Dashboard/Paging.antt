-- ===== src/Dashboard/Paging.antt =====
-- dashboard/routers: the numbered pages of a list.
use poly_holy_market_bot.Prelude.{
  ℕ, zero, suc, ◌+◌, ◌*◌, ◌-◌, ◌≤◌, ◌≡◌, refl, sym, ap, ◌∙◌, Bool, false, List, [], ◌∷◌, ◌++◌,
  length, take, drop, max, ltb, arith,
}

abbrev pub page_size : ℕ
page_size = 50

-- the offset of a page; there is no page before the first
unfoldable pub offset_of : ℕ → ℕ → ℕ
offset_of size page = (max page 1 - 1) * size

unfoldable pub has_next : ℕ → ℕ → ℕ → Bool
unfolding offset_of
has_next size page total = ltb (offset_of size page + size) total

module _ {ℓ} {A : Type ℓ} where
  -- .limit(limit).offset(offset)
  abbrev pub window : ℕ → ℕ → List A → List A
  window limit offset xs = take limit (drop offset xs)

  unfoldable pub page_of : ℕ → ℕ → List A → List A
  unfolding offset_of
  page_of size page xs = window size (offset_of size page) xs

  -- the first pages one after the other
  abbrev pub pages : ℕ → ℕ → List A → List A
  pages size zero xs = []
  pages size (suc n) xs = pages size n xs ++ page_of size (suc n) xs

  take-nil : (n : ℕ) → take {A = A} n [] ≡ []
  take-nil zero = refl
  take-nil (suc n) = refl

  take-add : (m n : ℕ) (xs : List A) → take m xs ++ take n (drop m xs) ≡ take (m + n) xs
  take-add zero n xs = ap (λ k. take k xs) (omega arith)
  take-add (suc m) zero [] = sym (take-nil (suc m + 0))
  take-add (suc m) (suc n) [] = sym (take-nil (suc m + suc n))
  take-add (suc m) n (x ∷ xs) =
      let e : suc (m + n) ≡ suc m + n = omega arith in
      ap (λ l. x ∷ l) (take-add m n xs) ∙ ap (λ k. take k (x ∷ xs)) e

  take_all : (n : ℕ) (xs : List A) → length xs ≤ n → take n xs ≡ xs
  take_all zero [] h = refl
  take_all zero (x ∷ xs) h = absurd (omega arith)
  take_all (suc n) [] h = refl
  take_all (suc n) (x ∷ xs) h = ap (λ l. x ∷ l) (take_all n xs (omega arith))

  pages_lem : (size n : ℕ) (xs : List A) → pages size n xs ≡ take (n * size) xs
  unfolding page_of
  pages_lem size zero xs = let e : 0 ≡ 0 * size = omega arith in ap (λ k. take k xs) e
  pages_lem size (suc n) xs =
      let e : max (suc n) 1 - 1 ≡ n = omega arith in
      let s : n * size + size ≡ suc n * size = grind arith in
      ap (λ l. l ++ page_of size (suc n) xs) (pages_lem size n xs)
      ∙ ap (λ k. take (n * size) xs ++ window size (k * size) xs) e
      ∙ take-add (n * size) size xs
      ∙ ap (λ k. take k xs) s

  -- The pages up to one that has no next page are the whole list.
  pub pages_complete :
      (size n : ℕ) (xs : List A)
      → has_next size (suc n) (length xs) ≡ false
      → pages size (suc n) xs ≡ xs
  unfolding has_next
  pages_complete size n xs last =
      pages_lem size (suc n) xs ∙ take_all (suc n * size) xs (grind arith)
