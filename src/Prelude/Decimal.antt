-- ===== src/Prelude/Decimal.antt =====
-- Decimal numerals as text: `str(n)`, `str.isdigit` on ASCII, `int(s)`, and `str.split` on one
-- separator.
use Prim.Native.Nat.{ℕ, zero, suc, ◌+◌, ◌-◌, ◌*◌, ◌/◌, ◌%◌, ◌<◌}
use mathlib.Core.Path.{◌≡◌, refl, ap}
use mathlib.Core.Logic.{inl, inr}
use mathlib.Core.Bool.{Bool, true, false, ◌&&◌}
use mathlib.Core.List.{List, [], ◌∷◌, ◌++◌}
use native.Mathlib.Omega.{arith}
use poly_holy_market_bot.Prelude.Tests.{ltb, leb, ◌==◌, if◌then◌else◌, Bool-cases}
use poly_holy_market_bot.Prelude.Codes.{Text, non_empty}

-- Division by ten shortens a numeral, so that `suc n` rounds are enough for `n`.
unfoldable pub print_from : ℕ → ℕ → Text
print_from zero n = []
print_from (suc fuel) n =
    let rest = print_from fuel (n / 10) in
    if ltb n 10 then (b'0' + n) ∷ [] else rest ++ (b'0' + n % 10) ∷ []

unfoldable pub print_nat : ℕ → Text
unfolding print_from
print_nat n = print_from (suc n) n

abbrev pub is_digit : ℕ → Bool
is_digit c = leb b'0' c && leb c b'9'

unfoldable pub all_digits : Text → Bool
all_digits [] = true
all_digits (c ∷ s) = is_digit c && all_digits s

-- `s.isdigit()`
unfoldable pub is_numeral : Text → Bool
unfolding all_digits
is_numeral s = non_empty s && all_digits s

unfoldable pub value_from : ℕ → Text → ℕ
value_from acc [] = acc
value_from acc (c ∷ s) = value_from (acc * 10 + (c - b'0')) s

-- `int(s)`, for a numeral
unfoldable pub parse_nat : Text → ℕ
unfolding value_from
parse_nat = value_from 0

abbrev pub cons_field : ℕ → List Text → List Text
cons_field c [] = (c ∷ []) ∷ []
cons_field c (f ∷ fs) = (c ∷ f) ∷ fs

-- `s.split(sep)`
unfoldable pub split_on : ℕ → Text → List Text
split_on sep [] = [] ∷ []
split_on sep (c ∷ s) =
    let rest = split_on sep s in if c == sep then [] ∷ rest else cons_field c rest

value_from-append :
    (acc c : ℕ) (s : Text) → value_from acc (s ++ c ∷ []) ≡ value_from acc s * 10 + (c - b'0')
unfolding value_from
value_from-append acc c [] = refl
value_from-append acc c (d ∷ s) = value_from-append (acc * 10 + (d - b'0')) c s

value-print_from : (fuel n : ℕ) → n < fuel → value_from 0 (print_from fuel n) ≡ n
unfolding print_from value_from
value-print_from zero n h = absurd (omega (arith, h))
value-print_from (suc fuel) n h = elim (Bool-cases (ltb n 10)) [
  | inl small ↦ rw small (omega arith)
  | inr large ↦
      let shorter : n / 10 < fuel = ground (arith, large, h) in
      rw large (
        omega (
          arith,
          value_from-append 0 (b'0' + n % 10) (print_from fuel (n / 10)),
          value-print_from fuel (n / 10) shorter,
        ))
]

-- Reading a printed number gives the number.
pub parse_nat-print_nat : (n : ℕ) → parse_nat (print_nat n) ≡ n
unfolding parse_nat print_nat
parse_nat-print_nat n = value-print_from (suc n) n (omega arith)

all_digits-append :
    (s : Text) (c : ℕ) → all_digits s ≡ true → is_digit c ≡ true → all_digits (s ++ c ∷ []) ≡ true
unfolding all_digits
all_digits-append [] c h hc = ground (arith, hc)
all_digits-append (d ∷ s) c h hc = ground (arith, all_digits-append s c, h, hc)

digits-print_from : (fuel n : ℕ) → all_digits (print_from fuel n) ≡ true
unfolding print_from all_digits
digits-print_from zero n = refl
digits-print_from (suc fuel) n = elim (Bool-cases (ltb n 10)) [
  | inl small ↦ rw small (ground (arith, small))
  | inr large ↦ rw large (
      all_digits-append (print_from fuel (n / 10)) (b'0' + n % 10) (digits-print_from fuel (n / 10))
        (ground arith))
]

pub all_digits-print_nat : (n : ℕ) → all_digits (print_nat n) ≡ true
unfolding print_nat
all_digits-print_nat n = digits-print_from (suc n) n

non_empty-append : (s : Text) (c : ℕ) → non_empty (s ++ c ∷ []) ≡ true
non_empty-append [] c = refl
non_empty-append (d ∷ s) c = refl

non_empty-print_from : (fuel n : ℕ) → non_empty (print_from (suc fuel) n) ≡ true
unfolding print_from
non_empty-print_from fuel n = elim (Bool-cases (ltb n 10)) [
  | inl small ↦ rw small refl
  | inr large ↦ rw large (non_empty-append (print_from fuel (n / 10)) (b'0' + n % 10))
]

pub is_numeral-print_nat : (n : ℕ) → is_numeral (print_nat n) ≡ true
unfolding is_numeral print_nat
is_numeral-print_nat n = rw (non_empty-print_from n n, digits-print_from (suc n) n) refl

-- A field without the separator is split off whole.
pub split_on-field :
    (sep : ℕ) (s t : Text)
    → all_digits s ≡ true
    → is_digit sep ≡ false
    → split_on sep (s ++ sep ∷ t) ≡ s ∷ split_on sep t
unfolding split_on all_digits
split_on-field sep [] t h hs = ground arith
split_on-field sep (c ∷ s) t h hs =
    let apart : (c == sep) ≡ false = ground (arith, h, hs) in
    rw apart (ap (cons_field c) (split_on-field sep s t (ground (arith, h)) hs))

pub split_on-single :
    (sep : ℕ) (s : Text) → all_digits s ≡ true → is_digit sep ≡ false → split_on sep s ≡ s ∷ []
unfolding split_on all_digits
split_on-single sep [] h hs = refl
split_on-single sep (c ∷ s) h hs =
    let apart : (c == sep) ≡ false = ground (arith, h, hs) in
    rw apart (ap (cons_field c) (split_on-single sep s (ground (arith, h)) hs))
