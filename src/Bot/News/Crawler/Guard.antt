-- ===== src/Bot/News/Crawler/Guard.antt =====
-- bot/news/crawler.py, _http_get: the guard against requests to internal addresses.
use poly_holy_market_bot.Prelude.{
  ℕ, zero, suc, ◌+◌, ◌*◌, ◌≤◌, ◌≡◌, refl, ◌==◌, false, ◌&&◌, Option, none, some, List, [], ◌∷◌, any,
  length, Grows, Grows-refl, Grows-one, Grows-trans, arith, Bool-cases, Option-cases, inl, inr, ◌⊎◌,
  non_empty, Text,
}
use poly_holy_market_bot.Bot.News.Crawler.{
  Net, Connection, Page, Fetched, unsafe_url, ip_is_blocked, pin, addresses, is_http,
  assert_public_url, get_once, retry_bare, has_host, hop, next_url, Turn, stops, follows, end_turn,
  read_chunks, get_loop, http_get,
}

-- The address of a connection is public.
abbrev pub IsPublic : Net → Connection → Type 0
IsPublic net c = ip_is_blocked net c.address ≡ false

abbrev Pinned : Net → Option Text → Type 0
Pinned net none = Unit
Pinned net (some ip) = ip_is_blocked net ip ≡ false

pin-Pinned : (net : Net) (addrs : List Text) → Pinned net (pin net addrs)
unfolding pin
pin-Pinned net [] = tt
pin-Pinned net (a ∷ addrs) = elim (Bool-cases (any (ip_is_blocked net) (a ∷ addrs))) [
  | inl bad ↦ rw (pin, bad) tt
  | inr good ↦ rw (pin, good) (ground (arith, good))
]

assert_public_url-Pinned :
    (net : Net) (call : ℕ) (url : Text) → Pinned net (assert_public_url net call url)
unfolding assert_public_url
assert_public_url-Pinned net call url = elim (Bool-cases (is_http (net.scheme url))) [
  | inr other ↦ rw (assert_public_url, other) tt
  | inl http ↦
      rw (assert_public_url, http)
        (elim (Option-cases (net.hostname url)) [
          | inl missing ↦ rw missing tt
          | inr (host, there) ↦ rw there (elim (Bool-cases (non_empty host)) [
            | inr empty ↦ rw empty tt
            | inl named ↦ rw named (elim (Option-cases (addresses net call host)) [
              | inl failed ↦ rw failed tt
              | inr (addrs, found) ↦ rw found (pin-Pinned net addrs)
            ])
          ])
        ])
]

abbrev PinnedTurn : Net → Turn → Type 0
PinnedTurn net (stops f) = Unit
PinnedTurn net (follows nxt ip) = ip_is_blocked net ip ≡ false

follow-PinnedTurn :
    (net : Net) (nxt : Text) (target : Option Text)
    → Pinned net target
    → PinnedTurn net (elim target [ none ↦ stops unsafe_url | some ip ↦ follows nxt ip ])
follow-PinnedTurn net nxt none h = tt
follow-PinnedTurn net nxt (some ip) h = h

end_turn-PinnedTurn :
    (net : Net) (current : Text) (call : ℕ) (page : Option Page)
    → PinnedTurn net (end_turn net current call page)
unfolding end_turn
end_turn-PinnedTurn net current call none = tt
end_turn-PinnedTurn net current call (some p) = elim (Option-cases (next_url net current p)) [
  | inl last ↦ rw (end_turn, last) tt
  | inr (nxt, more) ↦
      rw (end_turn, more)
        (follow-PinnedTurn net nxt (assert_public_url net call nxt)
          (assert_public_url-Pinned net call nxt))
]

Turn-cases :
    (t : Turn)
    → ((f : Fetched) × (t ≡ stops f)) ⊎ ((nxt : Text) × (ip : Text) × (t ≡ follows nxt ip))
Turn-cases (stops f) = inl (f, refl)
Turn-cases (follows nxt ip) = inr (nxt, ip, refl)

get_once-Grows :
    (net : Net) (c : Connection) (trace : List Connection)
    → IsPublic net c
    → Grows (IsPublic net) 1 trace (get_once net c trace).1
unfolding get_once
get_once-Grows net c trace h = Grows-one (IsPublic net) c trace h

retry_bare-Grows :
    (net : Net) (c : Connection) (r : Option Page × List Connection)
    → IsPublic net c
    → Grows (IsPublic net) 1 r.1 (retry_bare net c r).1
unfolding retry_bare get_once
retry_bare-Grows net c (none, trace) h = Grows-refl (IsPublic net) 1 trace
retry_bare-Grows net c (some p, trace) h = elim (Bool-cases ((p.status == 403) && c.has_referer)) [
  | inl again ↦
      rw (retry_bare, again) (Grows-one (IsPublic net) (record c { has_referer = false }) trace h)
  | inr done ↦ rw (retry_bare, done) (Grows-refl (IsPublic net) 1 trace)
]

hop-Grows :
    (net : Net) (current ip : Text) (trace : List Connection)
    → ip_is_blocked net ip ≡ false
    → Grows (IsPublic net) 2 trace (hop net current ip trace).1
unfolding hop
hop-Grows net current ip trace h =
    let c : Connection = record {
      url = current;
      address = ip;
      has_referer = has_host net current;
    } in
    Grows-trans (IsPublic net) 1 1 2 trace (get_once net c trace).1 (hop net current ip trace).1
      (omega arith) (get_once-Grows net c trace h) (retry_bare-Grows net c (get_once net c trace) h)

get_loop-Grows :
    (net : Net) (turns : ℕ) (current ip : Text) (trace : List Connection)
    → ip_is_blocked net ip ≡ false
    → Grows (IsPublic net) (2 * turns) trace (get_loop net turns current ip trace).1
unfolding get_loop
get_loop-Grows net zero current ip trace h = Grows-refl (IsPublic net) 0 trace
get_loop-Grows net (suc turns) current ip trace h =
    let (page, trace') = hop net current ip trace in
    let first : Grows (IsPublic net) 2 trace trace' = hop-Grows net current ip trace h in
    let pinned = end_turn-PinnedTurn net current (length trace') page in
    elim (Turn-cases (end_turn net current (length trace') page)) [
      | inl (f, done) ↦
          rw (get_loop, done)
            (Grows-trans (IsPublic net) 2 0 (2 * suc turns) trace trace' trace' (omega arith) first
              (Grows-refl (IsPublic net) 0 trace'))
      | inr (nxt, ip', more) ↦
          let good : ip_is_blocked net ip' ≡ false = rw more at pinned in
          rw (get_loop, more)
            (Grows-trans (IsPublic net) 2 (2 * turns) (2 * suc turns) trace trace'
              (get_loop net turns nxt ip' trace').1 (omega arith) first
              (get_loop-Grows net turns nxt ip' trace' good))
    ]

-- Whatever DNS and the servers answer, and however their answers change between the calls,
-- _http_get ends after at most twelve connections (six turns with one retry each), and every one of
-- them, those after redirects included, goes to an address that was checked to be public.
pub http_get_guarded :
    (net : Net) (url : Text) (trace : List Connection)
    → Grows (IsPublic net) 12 trace (http_get net url trace).1
unfolding http_get
http_get_guarded net url trace =
    let pinned = assert_public_url-Pinned net (length trace) url in
    elim (Option-cases (assert_public_url net (length trace) url)) [
      | inl refused ↦ rw (http_get, refused) (Grows-refl (IsPublic net) 12 trace)
      | inr (ip, vetted) ↦
          let good : ip_is_blocked net ip ≡ false = rw vetted at pinned in
          rw (http_get, vetted) (get_loop-Grows net 6 url ip trace good)
    ]

-- A body that is kept is not longer than the cap.
pub read_chunks_capped :
    (cap kept : ℕ) (chunks : List ℕ) (n : ℕ)
    → kept ≤ cap
    → read_chunks cap kept chunks ≡ some n
    → n ≤ cap
unfolding read_chunks
read_chunks_capped cap kept [] n le h = ground (arith, le, h)
read_chunks_capped cap kept (c ∷ chunks) n le h =
    ground (arith, read_chunks_capped cap (kept + c) chunks n, h)
