-- ===== src/Bot/News/Crawler/Tests.antt =====
-- A feed that redirects to an internal address.
use poly_holy_market_bot.Prelude.{
  ◌≡◌, refl, ◌||◌, none, some, [], ◌∷◌, codes, text_eq, zero, suc, Grows,
}
use poly_holy_market_bot.Bot.News.Crawler.{Net, unsafe_url, http_get}
use poly_holy_market_bot.Bot.News.Crawler.Guard.{IsPublic, http_get_guarded}

-- The name resolves to a public address on the first call only.
abbrev rebinding : Net
rebinding = record {
  scheme = λ url. codes "https";
  hostname = λ url. some (codes "feed.example");
  is_ip = λ s. text_eq s (codes "8.8.8.8") || text_eq s (codes "10.0.0.1");
  is_special = λ s. text_eq s (codes "10.0.0.1");
  getaddrinfo = λ call host. elim call [
    | zero ↦ some (codes "8.8.8.8" ∷ [])
    | suc n ↦ some (codes "10.0.0.1" ∷ [])
  ];
  urljoin = λ base l. l;
  respond = λ call c. record {
    status = 302;
    location = some (codes "https://feed.example/next");
    content_length = none;
    content_type = [];
    chunks = [];
    text = [];
  };
  max_bytes = 5_000_000;
}

http_get_guarded_example :
    Grows (IsPublic rebinding) 12 [] (http_get rebinding (codes "https://feed.example") []).1
http_get_guarded_example = http_get_guarded rebinding (codes "https://feed.example") []

refused_after_rebinding : (http_get rebinding (codes "https://feed.example") []).0 ≡ unsafe_url
unfolding http_get text_eq
refused_after_rebinding = refl
