-- ===== src/Core/RateLimit/Tests.antt =====
-- The limiter on concrete calls.
use poly_holy_market_bot.Prelude.{
  ℕ, suc, ◌-◌, ◌≡◌, ◌↔◌, ◌≤◌, refl, true, List, [], ◌∷◌, arith, Text, codes, nat_eq, text_keys,
  text_eq,
}
use poly_holy_market_bot.Core.RateLimit.{allow, clear, drop_expired}
use poly_holy_market_bot.Core.RateLimit.Window.{
  window_limit, allowed_iff_room, within, since, run, fresh,
}

-- Key 7 calls at 0, 1, 2 and 11, key 8 at 1; at most two events in ten ticks.
abbrev burst : List (ℕ × ℕ)
burst = (7, 0) ∷ (7, 1) ∷ (8, 1) ∷ (7, 2) ∷ (7, 11) ∷ []

accepted_burst : (run 7 burst (fresh 7 2 10) []).1 ≡ 11 ∷ 1 ∷ 0 ∷ []
unfolding allow drop_expired text_eq
accepted_burst = refl

window_limit_example : within 1 11 (run 7 burst (fresh 7 2 10) []).1 ≤ 2
window_limit_example = window_limit 7 2 10 burst 1 (omega arith)

allowed_iff_room_example :
    ((allow 7 12 (run 7 burst (fresh 7 2 10) []).0).0 ≡ true)
    ↔ (suc (since (12 - 10) (run 7 burst (fresh 7 2 10) []).1) ≤ 2)
allowed_iff_room_example = allowed_iff_room 7 2 10 burst 12 (omega arith)

abbrev by_name : List (Text × ℕ)
by_name = (codes "1.2.3.4", 0) ∷ (codes "1.2.3.4", 1) ∷ []

accepted_by_name : (run (codes "1.2.3.4") by_name (fresh (codes "1.2.3.4") 1 10) []).1 ≡ 0 ∷ []
unfolding allow drop_expired text_eq
accepted_by_name = refl

cleared : (clear (run 7 burst (fresh 7 2 10) []).0).hits 7 ≡ []
unfolding clear
cleared = refl
