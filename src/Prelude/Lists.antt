-- ===== src/Prelude/Lists.antt =====
-- Lists over the native numbers, and the table operations of the database layer: `find` is a
-- `select ... where` that takes the first row, `update_where` writes the rows that match.
use Prim.Native.Nat.{ℕ, zero, suc, ◌+◌, ◌-◌, ◌≤◌}
use mathlib.Core.Path.{◌≡◌, refl, ap, subst}
use mathlib.Core.Logic.{inl, inr}
use mathlib.Core.Bool.{Bool, true, false, ◌||◌, ◌&&◌}
use mathlib.Core.List.{List, [], ◌∷◌, ◌++◌, map}
use mathlib.Core.Option.{Option, none, some}
use native.Mathlib.Omega.{arith}
use poly_holy_market_bot.Prelude.Tests.{is_some, if◌then◌else◌, Bool-cases}

module _ {ℓ} {A : Type ℓ} where
  abbrev pub length : List A → ℕ
  length [] = 0
  length (x ∷ xs) = suc (length xs)

  abbrev pub take : ℕ → List A → List A
  take zero xs = []
  take (suc n) [] = []
  take (suc n) (x ∷ xs) = x ∷ take n xs

  abbrev pub drop : ℕ → List A → List A
  drop zero xs = xs
  drop (suc n) [] = []
  drop (suc n) (x ∷ xs) = drop n xs

  abbrev pub get_elem? : List A → ℕ → Option A
  get_elem? [] i = none
  get_elem? (x ∷ xs) zero = some x
  get_elem? (x ∷ xs) (suc i) = get_elem? xs i

  abbrev pub find : (A → Bool) → List A → Option A
  find p [] = none
  find p (x ∷ xs) = if p x then some x else find p xs

  -- the last element that satisfies the test: the first one in the reverse order
  abbrev pub find_last : (A → Bool) → List A → Option A
  find_last p [] = none
  find_last p (x ∷ xs) =
      let later = find_last p xs in
      elim later [ none ↦ if p x then some x else none | some y ↦ some y ]

  abbrev pub filter : (A → Bool) → List A → List A
  filter p [] = []
  filter p (x ∷ xs) = let rest = filter p xs in if p x then x ∷ rest else rest

  abbrev pub any : (A → Bool) → List A → Bool
  any p [] = false
  any p (x ∷ xs) = p x || any p xs

  abbrev pub update_where : (A → Bool) → (A → A) → List A → List A
  update_where p f [] = []
  update_where p f (x ∷ xs) = (if p x then f x else x) ∷ update_where p f xs

  abbrev pub All {κ} : (A → Type κ) → List A → Type κ
  All P [] = Unit
  All P (x ∷ xs) = P x × All P xs

  pub length-append : (xs ys : List A) → length (xs ++ ys) ≡ length xs + length ys
  length-append [] ys = omega arith
  length-append (x ∷ xs) ys = omega (arith, length-append xs ys)

  pub take-append-drop : (n : ℕ) (xs : List A) → take n xs ++ drop n xs ≡ xs
  take-append-drop zero xs = refl
  take-append-drop (suc n) [] = refl
  take-append-drop (suc n) (x ∷ xs) = ap (λ l. x ∷ l) (take-append-drop n xs)

  pub length-drop : (n : ℕ) (xs : List A) → length (drop n xs) ≡ length xs - n
  length-drop zero xs = omega arith
  length-drop (suc n) [] = omega arith
  length-drop (suc n) (x ∷ xs) = omega (arith, length-drop n xs)

  pub length-filter : (p : A → Bool) (xs : List A) → length (filter p xs) ≤ length xs
  length-filter p [] = omega arith
  length-filter p (x ∷ xs) = ground (arith, length-filter p xs)

  pub length-take_le : (n : ℕ) (xs : List A) → length (take n xs) ≤ n
  length-take_le zero xs = omega arith
  length-take_le (suc n) [] = omega arith
  length-take_le (suc n) (x ∷ xs) = omega (arith, length-take_le n xs)

  pub length-update_where :
      (p : A → Bool) (f : A → A) (xs : List A) → length (update_where p f xs) ≡ length xs
  length-update_where p f [] = refl
  length-update_where p f (x ∷ xs) = ap suc (length-update_where p f xs)

  pub filter-append :
      (p : A → Bool) (xs ys : List A) → filter p (xs ++ ys) ≡ filter p xs ++ filter p ys
  filter-append p [] ys = refl
  filter-append p (x ∷ xs) ys = ground (arith, filter-append p xs ys)

  pub any-append : (p : A → Bool) (xs ys : List A) → any p (xs ++ ys) ≡ any p xs || any p ys
  any-append p [] ys = refl
  any-append p (x ∷ xs) ys = ground (arith, any-append p xs ys)

  pub All-append {κ} : (P : A → Type κ) (xs ys : List A) → All P xs → All P ys → All P (xs ++ ys)
  All-append P [] ys hx hy = hy
  All-append P (x ∷ xs) ys hx hy = (hx.0, All-append P xs ys hx.1 hy)

module _ {ℓ κ} {A : Type ℓ} (P : A → Type κ) where
  pub All-filter : (p : A → Bool) (xs : List A) → All P xs → All P (filter p xs)
  All-filter p [] h = tt
  All-filter p (x ∷ xs) h = ground (arith, All-filter p xs h.1)

  pub find-All : (p : A → Bool) (xs : List A) (x : A) → All P xs → find p xs ≡ some x → P x
  find-All p [] x h e = absurd cc
  find-All p (y ∷ xs) x h e = elim (Bool-cases (p y)) [
    | inl here ↦ subst P (ground arith) h.0
    | inr later ↦ find-All p xs x h.1 (ground arith)
  ]

  -- The rows that a filter keeps satisfy its test.
  pub filter-All : (p : A → Bool) (xs : List A) → ((x : A) → p x ≡ true → P x) → All P (filter p xs)
  filter-All p [] f = tt
  filter-All p (x ∷ xs) f = elim (Bool-cases (p x)) [
    | inl keep ↦ rw keep (f x keep, filter-All p xs f)
    | inr drop ↦ rw drop (filter-All p xs f)
  ]

module _ {ℓ κ ν} {A : Type ℓ} (P : A → Type κ) (Q : A → Type ν) (f : (a : A) → P a → Q a) where
  pub All-imply : (xs : List A) → All P xs → All Q xs
  All-imply [] h = tt
  All-imply (x ∷ xs) h = (f x h.0, All-imply xs h.1)

-- Right-nested sum of a measure over the rows of a table.
abbrev pub sum_of {ℓ} : {A : Type ℓ} → (A → ℕ) → List A → ℕ
sum_of f [] = 0
sum_of f (x ∷ xs) = f x + sum_of f xs

pub sum_of-append {ℓ} :
    {A : Type ℓ} (f : A → ℕ) (xs ys : List A) → sum_of f (xs ++ ys) ≡ sum_of f xs + sum_of f ys
sum_of-append f [] ys = omega arith
sum_of-append f (x ∷ xs) ys = omega (arith, sum_of-append f xs ys)

abbrev pub or_else {ℓ} : {A : Type ℓ} → Option A → Option A → Option A
or_else none d = d
or_else (some a) d = some a

abbrev pub map_option {ℓ} : {A : Type ℓ} → (A → A) → Option A → Option A
map_option f none = none
map_option f (some a) = some (f a)

-- Reading a row after an insert and after an update.
module _ {ℓ} {A : Type ℓ} where
  pub find-append :
      (p : A → Bool) (xs ys : List A) → find p (xs ++ ys) ≡ or_else (find p xs) (find p ys)
  find-append p [] ys = refl
  find-append p (x ∷ xs) ys = ground (arith, find-append p xs ys)

  pub find-update_where_self :
      (p : A → Bool) (f : A → A) (xs : List A)
      → ((x : A) → p (f x) ≡ p x)
      → find p (update_where p f xs) ≡ map_option f (find p xs)
  find-update_where_self p f [] keep = refl
  find-update_where_self p f (x ∷ xs) keep =
      ground (arith, keep x, find-update_where_self p f xs keep)

  pub find-update_where :
      (p q : A → Bool) (f : A → A) (xs : List A)
      → ((x : A) → p (f x) ≡ p x)
      → find p (update_where q f xs) ≡ map_option (λ x. if q x then f x else x) (find p xs)
  find-update_where p q f [] keep = refl
  find-update_where p q f (x ∷ xs) keep = ground (arith, keep x, find-update_where p q f xs keep)

  pub find_exists :
      (p q : A → Bool) (xs : List A) (x : A)
      → find p xs ≡ some x
      → q x ≡ true
      → is_some (find q xs) ≡ true
  find_exists p q [] x h t = cc
  find_exists p q (y ∷ xs) x h t = ground (arith, find_exists p q xs x)

  pub find-update_where_ne :
      (p q : A → Bool) (f : A → A) (xs : List A)
      → ((x : A) → q x ≡ true → (p x ≡ false) × (p (f x) ≡ false))
      → find p (update_where q f xs) ≡ find p xs
  find-update_where_ne p q f [] apart = refl
  find-update_where_ne p q f (x ∷ xs) apart =
      ground (arith, apart x, find-update_where_ne p q f xs apart)

  pub find_sound : (p : A → Bool) (xs : List A) (x : A) → find p xs ≡ some x → p x ≡ true
  find_sound p [] x h = cc
  find_sound p (y ∷ xs) x h = ground (arith, find_sound p xs x)

  pub find-filter-none :
      (p q : A → Bool) (xs : List A)
      → ((x : A) → p x ≡ true → q x ≡ false)
      → find p (filter q xs) ≡ none
  find-filter-none p q [] out = refl
  find-filter-none p q (x ∷ xs) out = ground (arith, out x, find-filter-none p q xs out)

  pub find-filter_same :
      (p q : A → Bool) (xs : List A)
      → ((x : A) → p x ≡ true → q x ≡ true)
      → find p (filter q xs) ≡ find p xs
  find-filter_same p q [] stays = refl
  find-filter_same p q (x ∷ xs) stays = ground (arith, stays x, find-filter_same p q xs stays)

All-kept {ℓ κ} :
    {A : Type ℓ} (P : A → Type κ) (b : Bool) (x : A) (xs : List A)
    → (b ≡ true → P x)
    → All P xs
    → All P (if b then x ∷ xs else xs)
All-kept P true x xs h hs = (h refl, hs)
All-kept P false x xs h hs = hs

-- A row that satisfies the test is among the rows that the filter keeps.
module _ {ℓ} {A : Type ℓ} (p : A → Bool) (same : A → A → Bool)
    (same_refl : (a : A) → same a a ≡ true) where
  pub filter_covers : (xs : List A) → All (λ x. p x ≡ true → any (same x) (filter p xs) ≡ true) xs
  filter_covers [] = tt
  filter_covers (x ∷ xs) = (
    λ h. ground (arith, h, same_refl x),
    All-imply (λ y. p y ≡ true → any (same y) (filter p xs) ≡ true)
        (λ y. p y ≡ true → any (same y) (filter p (x ∷ xs)) ≡ true)
        (λ y covered h. ground (arith, covered h)) xs (filter_covers xs),
  )

  -- A row that the filter keeps is a row of the list that satisfies the test.
  pub filter_from : (xs : List A) → All (λ x. any (λ y. same x y && p y) xs ≡ true) (filter p xs)
  filter_from [] = tt
  filter_from (x ∷ xs) =
      let later =
        All-imply (λ z. any (λ y. same z y && p y) xs ≡ true)
          (λ z. any (λ y. same z y && p y) (x ∷ xs) ≡ true) (λ z h. ground (arith, h)) (filter p xs)
          (filter_from xs) in
      All-kept (λ z. any (λ y. same z y && p y) (x ∷ xs) ≡ true) (p x) x (filter p xs)
        (λ keep. ground (arith, keep, same_refl x)) later

module _ {ℓ κ ν} {A : Type ℓ} {B : Type κ} (P : B → Type ν) (f : A → B) where
  pub All-map : (xs : List A) → All (λ x. P (f x)) xs → All P (map f xs)
  All-map [] h = tt
  All-map (x ∷ xs) h = (h.0, All-map xs h.1)

pub length-map {ℓ κ} :
    {A : Type ℓ} {B : Type κ} (f : A → B) (xs : List A) → length (map f xs) ≡ length xs
length-map f [] = refl
length-map f (x ∷ xs) = omega (arith, length-map f xs)

pub any_imply {ℓ} :
    {A : Type ℓ} (p q : A → Bool) (xs : List A)
    → ((x : A) → p x ≡ true → q x ≡ true)
    → any p xs ≡ true
    → any q xs ≡ true
any_imply p q [] f h = h
any_imply p q (x ∷ xs) f h = ground (arith, f x, any_imply p q xs f, h)
