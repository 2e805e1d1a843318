-- ===== src/Polymarket/Client.antt =====
-- polymarket/client.py: the auth level of a client, and the orders it sends. Prices are in
-- millionths of a dollar, amounts in micro-dollars, sizes in millionths of a share. The SDK is
-- outside: a call that reaches it is a value of `Call`, and whether it derives API credentials, and
-- which address it derives from a key, are arguments.
pub mod Laws
mod Tests
use poly_holy_market_bot.Prelude.{
  ℕ, zero, suc, ◌+◌, ◌*◌, ◌/◌, ◌%◌, leb, max, min, Bool, true, false, ◌&&◌, ◌||◌, not, Option, none,
  some, List, [], ◌==◌, ltb, if◌then◌else◌, Text, codes, text_eq, lower, non_empty, is_some,
}

-- polymarket/credentials.py, `PolymarketCreds`: what the client reads of it
pub record PolymarketCreds : Type 0 where
  pub wallet_address : Text
  pub private_key : Option Text
  pub api_key : Option Text
  pub api_secret : Option Text
  pub api_passphrase : Option Text

abbrev pub is_set : Option Text → Bool
is_set none = false
is_set (some t) = non_empty t

abbrev pub has_private_key : PolymarketCreds → Bool
has_private_key c = is_set c.private_key

abbrev pub has_api_creds : PolymarketCreds → Bool
has_api_creds c = is_set c.api_key && is_set c.api_secret && is_set c.api_passphrase

abbrev pub read_only : Text → PolymarketCreds
read_only address = record {
  wallet_address = address;
  private_key = none;
  api_key = none;
  api_secret = none;
  api_passphrase = none;
}

pub record Client : Type 0 where
  pub wallet_address : Text
  pub trading_ready : Bool
  pub order_signing_ready : Bool

-- `_init_clob`; `derives` says whether `create_or_derive_api_creds` returns.
unfoldable pub init_clob : Bool → PolymarketCreds → Client
init_clob derives c = record {
  wallet_address = c.wallet_address;
  trading_ready = has_private_key c && (has_api_creds c || derives);
  order_signing_ready = has_private_key c;
}

abbrev pub mismatch : Text → Option Text → Bool
mismatch claimed none = false
mismatch claimed (some d) =
    non_empty d && non_empty claimed && not (text_eq (lower d) (lower claimed))

-- `from_creds`: `none` is WalletMismatchError; `derived` is the address of the key, if any.
unfoldable pub from_creds : Bool → Option Text → PolymarketCreds → Option Client
unfolding init_clob
from_creds derives derived c =
    if has_private_key c && mismatch c.wallet_address derived
    then none
    else some (init_clob derives c)

pub data Side : Type 0 where
  buy sell : Side

-- SIDE_MAP[side.lower()], where any other key raises
unfoldable pub side_of : Text → Option Side
side_of t =
    if text_eq (lower t) (codes "buy")
    then some buy
    else if text_eq (lower t) (codes "sell")
    then some sell
    else none

pub data OrderType : Type 0 where
  gtc fok : OrderType

-- An order as it is posted: at a limit price, or a market order by its amount.
pub data Call : Type 0 where
  limit_order : Text → ℕ → ℕ → Side → Option Bool → OrderType → Call
  market_order : Text → ℕ → Side → OrderType → Call
  cancel_call : Text → Call
  cancel_all_call : Call

pub data Refusal : Type 0 where
  trading_unavailable bad_argument : Refusal

-- What a method does before the exchange answers: it sends a call, or raises.
pub data Submission : Type 0 where
  sends : Call → Submission
  refuses : Refusal → Submission

-- `_require_signing`, in front of a method's body
abbrev pub signing : Client → Submission → Submission
signing c body = if c.order_signing_ready then body else refuses trading_unavailable

unfoldable pub place_limit_order : Client → Text → ℕ → ℕ → Text → Option Bool → Submission
unfolding side_of
place_limit_order c token price size side neg_risk = signing c (elim (side_of side) [
  | none ↦ refuses bad_argument
  | some s ↦ sends (limit_order token price size s neg_risk gtc)
])

unfoldable pub place_market_order : Client → Text → ℕ → Text → Submission
unfolding side_of
place_market_order c token amount side = signing c (elim (side_of side) [
  | none ↦ refuses bad_argument
  | some s ↦ sends (market_order token amount s fok)
])

-- min(max(max_price, 0.01), 0.99)
abbrev pub capped_price : ℕ → ℕ
capped_price max_price = min (max max_price 10_000) 990_000

-- A float that is not negative, as a fraction; the denominator is a power of two.
pub record Double : Type 0 where
  pub num : ℕ
  pub den : ℕ

-- The power of two, among so many doublings, that brings n / d to at least 2 ^ 52.
unfoldable pub scale : ℕ → ℕ → ℕ → ℕ
scale zero n d = 1
scale (suc doublings) n d =
    let rest = scale doublings (n * 2) d in
    if leb (4_503_599_627_370_496 * d) n then 1 else 2 * rest

-- The nearest natural number to n / d, the even one of two.
unfoldable pub nearest : ℕ → ℕ → ℕ
nearest n d =
    let q = n / d in
    let twice = 2 * (n % d) in if ltb twice d then q else if ltb d twice then q + 1 else q + q % 2

-- The double next to n / d: 53 bits, for quotients of at least 2 ^ -28 and below 2 ^ 53.
unfoldable pub double : ℕ → ℕ → Double
unfolding scale nearest
double n d = let den = scale 80 n d in record { num = nearest (n * den) d; den = den }

-- math.floor(amount / price * 100) / 100 in floats, in millionths of a share
unfoldable pub capped_size : ℕ → ℕ → ℕ
unfolding double
capped_size amount price =
    let a = double amount 1_000_000 in
    let p = double price 1_000_000 in
    let shares = double (a.num * p.den) (a.den * p.num) in
    let hundredths = double (shares.num * 100) shares.den in
    hundredths.num / hundredths.den * 10_000

unfoldable pub place_capped_buy : Client → Text → ℕ → ℕ → Option Bool → Submission
unfolding capped_size
place_capped_buy c token amount max_price neg_risk =
    let price = capped_price max_price in
    let size = capped_size amount price in
    signing c (
      if size == 0
      then refuses trading_unavailable
      else sends (limit_order token price size buy neg_risk fok))

unfoldable pub cancel_order : Client → Text → Submission
cancel_order c id = signing c (sends (cancel_call id))

unfoldable pub cancel_all_orders : Client → Submission
cancel_all_orders c = signing c (sends cancel_all_call)
