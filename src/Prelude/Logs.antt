-- ===== src/Prelude/Logs.antt =====
-- Logs that grow at their head: the cards of a channel, the messages of the users.
use Prim.Native.Nat.{ℕ, ◌+◌, ◌≤◌}
use mathlib.Core.Path.{◌≡◌, refl, sym, ap, ◌∙◌}
use mathlib.Core.List.{List, [], ◌∷◌, ◌++◌, append_assoc}
use native.Mathlib.Omega.{arith}
use poly_holy_market_bot.Prelude.Lists.{All, All-append, length, length-append}

-- `after` has at most `n` entries more than `before`, and they satisfy `P`.
abbrev pub Grows {ℓ κ} : {A : Type ℓ} → (A → Type κ) → ℕ → List A → List A → Type (ℓ ⊔ κ)
Grows {A = A} P n before after =
    (new : List A) × (after ≡ new ++ before) × (length new ≤ n) × All P new

module _ {ℓ κ} {A : Type ℓ} (P : A → Type κ) where
  pub Grows-refl : (n : ℕ) (a : List A) → Grows P n a a
  Grows-refl n a = ([], refl, omega arith, tt)

  pub Grows-one : (x : A) (a : List A) → P x → Grows P 1 a (x ∷ a)
  Grows-one x a h = (x ∷ [], refl, omega arith, (h, tt))

  pub Grows-trans :
      (m n k : ℕ) (a b c : List A) → m + n ≤ k → Grows P m a b → Grows P n b c → Grows P k a c
  Grows-trans m n k a b c le (xs, ex, lx, hx) (ys, ey, ly, hy) = (
    ys ++ xs,
    ey ∙ ap (λ l. ys ++ l) ex ∙ sym (append_assoc ys xs a),
    omega (arith, length-append ys xs, lx, ly, le),
    All-append P ys xs hy hx,
  )
