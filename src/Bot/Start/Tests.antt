-- ===== src/Bot/Start/Tests.antt =====
-- /start with concrete links.
use poly_holy_market_bot.Prelude.{◌≡◌, refl, false, none, some, [], ◌∷◌, ◌++◌, Text, codes}
use poly_holy_market_bot.Db.Models.{empty_db}
use poly_holy_market_bot.Db.News.{NewsItem, sent, no_image, CtaOutcome, get_item}
use poly_holy_market_bot.Bot.News.Links.{news_payload, bet_payload}
use poly_holy_market_bot.Bot.Start.{bet_arg, item_arg, parse_arg, World, Outside, read_args, start}
use poly_holy_market_bot.Bot.Start.Links.{parse_arg-links}
use poly_holy_market_bot.Bot.Start.Laws.{IsOffered, start-IsOffered}

abbrev candidate : Text → Text → CtaOutcome
candidate label market_id = record {
  label = label;
  market_id = market_id;
  side = codes "yes";
  price = some 400_000;
}

abbrev story : NewsItem
story = record {
  id = 12;
  source_id = none;
  category_id = none;
  url = codes "u";
  url_hash = codes "h";
  dedup_hash = none;
  lang_orig = none;
  title_orig = codes "T";
  body_orig = none;
  hero_image_url = none;
  translations = [];
  image_status = no_image;
  status = sent;
  score = 7_000;
  market_id = none;
  cta_market_id = some (codes "0xa");
  cta_market_question = none;
  cta_outcomes = candidate (codes "A") (codes "0xa") ∷ candidate (codes "B") (codes "0xb") ∷ [];
  cta_url = none;
  cta_resolved_at = none;
  channel_msg_id = some 77;
  published_at = some 1_000;
}

abbrev world : World
world = record { db = empty_db; items = story ∷ []; news_bet_armed = none }

abbrev outside : Outside
outside = record {
  idem_key = λ uid item market side. side ++ market;
  now = 1_000;
  ttl_hours = 24;
  intent_fails = false;
}

parse_arg-links_example :
    (parse_arg (bet_payload 12 1) ≡ bet_arg 12 1 false)
    × (parse_arg (news_payload 12) ≡ item_arg 12)
parse_arg-links_example = parse_arg-links 12 1

start-IsOffered_example :
    IsOffered
      (story ∷ [])
      (read_args
        (codes "nb-12-1" ∷ [])
        (record { ref_code = none; news_item_id = none; news_bet = none }))
      (start outside 100 (some 1) (codes "nb-12-1" ∷ []) world).0
start-IsOffered_example = start-IsOffered outside 100 (some 1) (codes "nb-12-1" ∷ []) world

found : get_item 12 (story ∷ []) ≡ some story
unfolding get_item
found = refl
