-- ===== src/Bot/Start/Links.antt =====
-- bot/handlers/start.py and bot/news/cta.py: the links of the posts against the reader of the
-- arguments of /start.
use poly_holy_market_bot.Prelude.{
  ℕ, ◌≡◌, refl, ap, ◌∙◌, true, false, [], ◌∷◌, arith, Text, lower, lower_char, print_nat,
  parse_nat-print_nat, is_numeral-print_nat, all_digits, all_digits-print_nat, split_on-field,
  split_on-single,
}
use poly_holy_market_bot.Bot.News.Links.{news_payload, bet_payload}
use poly_holy_market_bot.Bot.Start.{bet_arg, item_arg, bet_index, bet_parts, parse_arg}

lower-digits : (s : Text) → all_digits s ≡ true → lower s ≡ s
unfolding lower lower_char all_digits
lower-digits [] h = refl
lower-digits (c ∷ s) h =
    let small : lower_char c ≡ c = ground (arith, h) in
    rw (lower, small) (ap (◌∷◌ c) (lower-digits s (ground (arith, h))))

bet_parts-print_nat :
    (item_id index : ℕ)
    → bet_parts (print_nat item_id ∷ print_nat index ∷ []) ≡ bet_arg item_id index false
unfolding bet_parts bet_index
bet_parts-print_nat item_id index =
    rw
      (
        bet_parts,
        is_numeral-print_nat item_id,
        lower-digits (print_nat index) (all_digits-print_nat index),
        bet_index,
        is_numeral-print_nat index,
        parse_nat-print_nat item_id,
        parse_nat-print_nat index,
      )
      refl

-- The argument that a link of a post carries is read as the item of the post, and for the link of a
-- button as the index of its outcome, for every item and every outcome.
pub parse_arg-links :
    (item_id index : ℕ)
    → (parse_arg (bet_payload item_id index) ≡ bet_arg item_id index false)
      × (parse_arg (news_payload item_id) ≡ item_arg item_id)
unfolding parse_arg bet_payload news_payload lower lower_char
parse_arg-links item_id index =
    let digits = all_digits-print_nat item_id in
    let fields =
      split_on-field b'-' (print_nat item_id) (print_nat index) digits refl
      ∙ ap (◌∷◌ (print_nat item_id))
          (split_on-single b'-' (print_nat index) (all_digits-print_nat index) refl) in
    (
      rw fields (bet_parts-print_nat item_id index),
      rw (is_numeral-print_nat item_id, parse_nat-print_nat item_id) refl,
    )
