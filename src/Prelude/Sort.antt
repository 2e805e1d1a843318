-- ===== src/Prelude/Sort.antt =====
-- `order_by(...)`: a stable sort by a strict order on the rows.
use Prim.Native.Nat.{ℕ, zero, suc, ◌≤◌}
use mathlib.Core.Path.{◌≡◌, refl}
use mathlib.Core.Logic.{◌⊎◌, inl, inr}
use mathlib.Core.Bool.{Bool, true, false}
use mathlib.Core.List.{List, [], ◌∷◌}
use native.Mathlib.Omega.{arith}
use poly_holy_market_bot.Prelude.Tests.{if◌then◌else◌, Bool-cases}
use poly_holy_market_bot.Prelude.Lists.{All, All-imply, take, any, filter, length}

module _ {ℓ} {A : Type ℓ} (before : A → A → Bool) where
  unfoldable pub insert_by : A → List A → List A
  insert_by x [] = x ∷ []
  insert_by x (y ∷ ys) = let rest = insert_by x ys in if before y x then y ∷ rest else x ∷ y ∷ ys

  unfoldable pub sort_by : List A → List A
  unfolding insert_by
  sort_by [] = []
  sort_by (x ∷ xs) = insert_by x (sort_by xs)

  -- No later row comes before an earlier one.
  abbrev pub Sorted : List A → Type 0
  Sorted [] = Unit
  Sorted (x ∷ xs) = All (λ y. before y x ≡ false) xs × Sorted xs

-- Sorting keeps the rows.
module _ {ℓ κ} {A : Type ℓ} (before : A → A → Bool) (P : A → Type κ) where
  All-insert_by : (x : A) (xs : List A) → P x → All P xs → All P (insert_by before x xs)
  unfolding insert_by
  All-insert_by x [] h hs = (h, tt)
  All-insert_by x (y ∷ ys) h hs = elim (Bool-cases (before y x)) [
    | inl later ↦ rw later (hs.0, All-insert_by x ys h hs.1)
    | inr here ↦ rw here (h, hs)
  ]

  pub All-sort_by : (xs : List A) → All P xs → All P (sort_by before xs)
  unfolding sort_by
  All-sort_by [] h = tt
  All-sort_by (x ∷ xs) h = All-insert_by x (sort_by before xs) h.0 (All-sort_by xs h.1)

  insert_by-All : (x : A) (xs : List A) → All P (insert_by before x xs) → P x × All P xs
  unfolding insert_by
  insert_by-All x [] h = h
  insert_by-All x (y ∷ ys) h = elim (Bool-cases (before y x)) [
    | inl later ↦
        let (now, rest) = rw later at h in let (hx, hs) = insert_by-All x ys rest in (hx, (now, hs))
    | inr here ↦ rw here at h
  ]

  pub sort_by-All : (xs : List A) → All P (sort_by before xs) → All P xs
  unfolding sort_by
  sort_by-All [] h = tt
  sort_by-All (x ∷ xs) h =
      let (hx, hs) = insert_by-All x (sort_by before xs) h in (hx, sort_by-All xs hs)

  pub All-take : (n : ℕ) (xs : List A) → All P xs → All P (take n xs)
  All-take zero xs h = tt
  All-take (suc n) [] h = tt
  All-take (suc n) (x ∷ xs) h = (h.0, All-take n xs h.1)

-- For a strict weak order the result is sorted.
module _ {ℓ} {A : Type ℓ} (before : A → A → Bool)
    (asym : (a b : A) → before a b ≡ true → before b a ≡ false)
    (weak : (a b c : A) → before b a ≡ false → before c b ≡ false → before c a ≡ false) where
  insert_by-Sorted :
      (x : A) (xs : List A) → Sorted before xs → Sorted before (insert_by before x xs)
  unfolding insert_by
  insert_by-Sorted x [] h = (tt, tt)
  insert_by-Sorted x (y ∷ ys) h = elim (Bool-cases (before y x)) [
    | inl later ↦ rw later (
      All-insert_by before (λ z. before z y ≡ false) x ys (asym y x later) h.0,
      insert_by-Sorted x ys h.1,
    )
    | inr here ↦ rw here (
      (
        here,
        All-imply (λ z. before z y ≡ false) (λ z. before z x ≡ false)
            (λ z later. weak x y z here later) ys h.0,
      ),
      h,
    )
  ]

  pub sort_by-Sorted : (xs : List A) → Sorted before (sort_by before xs)
  unfolding sort_by
  sort_by-Sorted [] = tt
  sort_by-Sorted (x ∷ xs) = insert_by-Sorted x (sort_by before xs) (sort_by-Sorted xs)

module _ {ℓ κ ν} {A : Type ℓ} (P : A → Type κ) (Q : A → Type ν) where
  pub All-pair : (xs : List A) → All P xs → All Q xs → All (λ x. P x × Q x) xs
  All-pair [] hp hq = tt
  All-pair (x ∷ xs) hp hq = ((hp.0, hq.0), All-pair xs hp.1 hq.1)

-- `x` is among the chosen rows, or comes before none of them.
module _ {ℓ} {A : Type ℓ} (before same : A → A → Bool) where
  abbrev pub Beaten : List A → A → Type 0
  Beaten chosen x = (any (same x) chosen ≡ true) ⊎ All (λ r. before x r ≡ false) chosen

-- Every row of a sorted list stands so to the first `n`.
module _ {ℓ} {A : Type ℓ} (before same : A → A → Bool) (same_refl : (a : A) → same a a ≡ true) where
  Beaten-cons :
      (x : A) (chosen : List A) (y : A)
      → (before y x ≡ false) × Beaten before same chosen y
      → Beaten before same (x ∷ chosen) y
  Beaten-cons x chosen y (later, inl in_rest) = inl (ground (arith, in_rest))
  Beaten-cons x chosen y (later, inr beaten) = inr (later, beaten)

  pub take-Beaten :
      (n : ℕ) (xs : List A) → Sorted before xs → All (Beaten before same (take n xs)) xs
  take-Beaten n [] h = tt
  take-Beaten zero (x ∷ xs) h = (inr tt, take-Beaten zero xs h.1)
  take-Beaten (suc n) (x ∷ xs) h = (
    inl (ground (arith, same_refl x)),
    All-imply (λ y. (before y x ≡ false) × Beaten before same (take n xs) y)
        (Beaten before same (x ∷ take n xs)) (Beaten-cons x (take n xs)) xs
        (All-pair (λ y. before y x ≡ false) (Beaten before same (take n xs)) xs h.0
          (take-Beaten n xs h.1)),
  )

-- How many rows pass a test, after sorting and in a prefix.
module _ {ℓ} {A : Type ℓ} (before : A → A → Bool) (p : A → Bool) where
  length-filter-insert_by :
      (x : A) (xs : List A) → length (filter p (insert_by before x xs)) ≡ length (filter p (x ∷ xs))
  unfolding insert_by
  length-filter-insert_by x [] = refl
  length-filter-insert_by x (y ∷ ys) = ground (arith, length-filter-insert_by x ys)

  pub length-filter-sort_by :
      (xs : List A) → length (filter p (sort_by before xs)) ≡ length (filter p xs)
  unfolding sort_by
  length-filter-sort_by [] = refl
  length-filter-sort_by (x ∷ xs) =
      ground (arith, length-filter-insert_by x (sort_by before xs), length-filter-sort_by xs)

  pub length-filter-take :
      (n : ℕ) (xs : List A) → length (filter p (take n xs)) ≤ length (filter p xs)
  length-filter-take zero xs = omega arith
  length-filter-take (suc n) [] = omega arith
  length-filter-take (suc n) (x ∷ xs) = ground (arith, length-filter-take n xs)

  pub length-filter-filter :
      (q : A → Bool) (xs : List A) → length (filter p (filter q xs)) ≤ length (filter p xs)
  length-filter-filter q [] = omega arith
  length-filter-filter q (x ∷ xs) = ground (arith, length-filter-filter q xs)

  pub length-filter_disjoint :
      (q : A → Bool) (xs : List A)
      → ((x : A) → p x ≡ true → q x ≡ false)
      → length (filter p (filter q xs)) ≡ 0
  length-filter_disjoint q [] apart = refl
  length-filter_disjoint q (x ∷ xs) apart =
      ground (arith, apart x, length-filter_disjoint q xs apart)
