-- ===== src/Bot/News/Crawler.antt =====
-- bot/news/crawler.py, the guarded HTTP client. `Net` is what the process cannot control: the
-- parsers of urllib and ipaddress, the answers of DNS, which may change from call to call, and the
-- answers of the servers. The trace is the list of the connections, the last one first.
pub mod Guard
mod Tests
use poly_holy_market_bot.Prelude.{
  ℕ, zero, suc, ◌+◌, ◌==◌, ltb, leb, Bool, true, false, not, ◌&&◌, ◌||◌, Option, none, some, List,
  [], ◌∷◌, any, length, if◌then◌else◌, Text, codes, text_eq, non_empty, lower, strip,
}
use poly_holy_market_bot.Bot.Intent.{contains}

-- what a server answers: the chunks of the body by their sizes, and the decoded text
pub record Reply : Type 0 where
  pub status : ℕ
  pub location : Option Text
  pub content_length : Option ℕ
  pub content_type : Text
  pub chunks : List ℕ
  pub text : Text

pub record Connection : Type 0 where
  pub url : Text
  pub address : Text
  pub has_referer : Bool

pub record Net : Type 0 where
  pub scheme : Text → Text
  pub hostname : Text → Option Text
  pub is_ip : Text → Bool
  pub is_special : Text → Bool
  pub getaddrinfo : ℕ → Text → Option (List Text)
  pub urljoin : Text → Text → Text
  pub respond : ℕ → Connection → Reply
  pub max_bytes : ℕ

-- private, loopback, link-local, reserved, multicast or unspecified; or no address at all
unfoldable pub ip_is_blocked : Net → Text → Bool
ip_is_blocked net ip = if net.is_ip ip then net.is_special ip else true

-- The first address of a list of which none is blocked.
unfoldable pub pin : Net → List Text → Option Text
unfolding ip_is_blocked
pin net [] = none
pin net (a ∷ addrs) = if any (ip_is_blocked net) (a ∷ addrs) then none else some a

abbrev pub addresses : Net → ℕ → Text → Option (List Text)
addresses net call host = if net.is_ip host then some (host ∷ []) else net.getaddrinfo call host

abbrev pub is_http : Text → Bool
is_http s = text_eq s (codes "http") || text_eq s (codes "https")

-- `_assert_public_url`; none is UnsafeUrlError. `call` counts the connections so far.
unfoldable pub assert_public_url : Net → ℕ → Text → Option Text
unfolding pin
assert_public_url net call url =
    if is_http (net.scheme url)
    then elim (net.hostname url) [
      | none ↦ none
      | some host ↦
          if non_empty host
          then elim (addresses net call host) [ none ↦ none | some addrs ↦ pin net addrs ]
          else none
    ]
    else none

-- The bytes that are kept; none if a chunk exceeds the cap.
unfoldable pub read_chunks : ℕ → ℕ → List ℕ → Option ℕ
read_chunks cap kept [] = some kept
read_chunks cap kept (n ∷ chunks) =
    let rest = read_chunks cap (kept + n) chunks in if ltb cap (kept + n) then none else rest

abbrev pub is_redirect : ℕ → Bool
is_redirect status = leb 300 status && ltb status 400

-- status, Location, content type and text; none is UnsafeUrlError
pub record Page : Type 0 where
  pub status : ℕ
  pub location : Option Text
  pub content_type : Text
  pub text : Text

abbrev pub too_long : Net → Option ℕ → Bool
too_long net none = false
too_long net (some n) = ltb net.max_bytes n

unfoldable pub stream_capped : Net → Reply → Option Page
unfolding read_chunks
stream_capped net r =
    if is_redirect r.status
    then some (record {
      status = r.status;
      location = r.location;
      content_type = r.content_type;
      text = [];
    })
    else if too_long net r.content_length
    then none
    else elim (read_chunks net.max_bytes 0 r.chunks) [
      | none ↦ none
      | some n ↦ some (record {
        status = r.status;
        location = r.location;
        content_type = r.content_type;
        text = r.text;
      })
    ]

-- One GET: the page, and the trace with the connection.
unfoldable pub get_once : Net → Connection → List Connection → Option Page × List Connection
unfolding stream_capped
get_once net c trace = (stream_capped net (net.respond (length trace) c), c ∷ trace)

-- A 403 to a request with a Referer is retried without it.
unfoldable pub retry_bare :
    Net → Connection → Option Page × List Connection → Option Page × List Connection
unfolding get_once
retry_bare net c (none, trace) = (none, trace)
retry_bare net c (some p, trace) =
    if (p.status == 403) && c.has_referer
    then get_once net (record c { has_referer = false }) trace
    else (some p, trace)

abbrev pub has_host : Net → Text → Bool
has_host net url = elim (net.hostname url) [ none ↦ false | some h ↦ non_empty h ]

-- One turn of the loop, to the pinned address of `current`.
unfoldable pub hop : Net → Text → Text → List Connection → Option Page × List Connection
unfolding retry_bare
hop net current ip trace =
    let c : Connection = record {
      url = current;
      address = ip;
      has_referer = has_host net current;
    } in
    retry_bare net c (get_once net c trace)

pub data Fetched : Type 0 where
  fetched : ℕ → Text → Text → Fetched
  unsafe_url : Fetched

-- the target of a redirect
unfoldable pub next_url : Net → Text → Page → Option Text
next_url net current p = elim p.location [
  | none ↦ none
  | some l ↦ if is_redirect p.status && non_empty l then some (net.urljoin current l) else none
]

-- How a turn of the loop ends: with a result, or with a target and its pinned address.
pub data Turn : Type 0 where
  stops : Fetched → Turn
  follows : Text → Text → Turn

unfoldable pub end_turn : Net → Text → ℕ → Option Page → Turn
unfolding next_url assert_public_url
end_turn net current call none = stops unsafe_url
end_turn net current call (some p) = elim (next_url net current p) [
  | none ↦ stops (fetched p.status p.text p.content_type)
  | some nxt ↦ elim (assert_public_url net call nxt) [
    | none ↦ stops unsafe_url
    | some ip ↦ follows nxt ip
  ]
]

-- The loop with the turns that are left; no turn left is "too many redirects".
unfoldable pub get_loop : Net → ℕ → Text → Text → List Connection → Fetched × List Connection
unfolding hop end_turn
get_loop net zero current ip trace = (unsafe_url, trace)
get_loop net (suc turns) current ip trace =
    let (page, trace') = hop net current ip trace in
    elim (end_turn net current (length trace') page) [
      | stops f ↦ (f, trace')
      | follows nxt ip' ↦ get_loop net turns nxt ip' trace'
    ]

abbrev pub max_redirects : ℕ
max_redirects = 5

unfoldable pub http_get : Net → Text → List Connection → Fetched × List Connection
unfolding get_loop assert_public_url
http_get net url trace = elim (assert_public_url net (length trace) url) [
  | none ↦ (unsafe_url, trace)
  | some ip ↦ get_loop net (max_redirects + 1) url ip trace
]
