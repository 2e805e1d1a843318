-- ===== src/Polymarket/Auth.antt =====
-- polymarket/auth.py: what a typed key and a funder address must look like, and what a key that is
-- connected becomes. The ClobClient of py_clob_client is a parameter; balances are in micro-dollars.
use poly_holy_market_bot.Prelude.{
  ℕ, ◌*◌, ◌==◌, ltb, leb, Bool, true, false, not, ◌&&◌, ◌||◌, Option, none, some, [], ◌∷◌, ◌++◌,
  length, if◌then◌else◌, Text, codes, text_eq, lower, non_empty, strip,
}
use poly_holy_market_bot.Polymarket.Client.{PolymarketCreds}
use poly_holy_market_bot.Bot.Intent.{starts_with}

-- [0-9a-fA-F]
abbrev pub is_hex : ℕ → Bool
is_hex c = (leb b'0' c && leb c b'9') || (leb b'a' c && leb c b'f') || (leb b'A' c && leb c b'F')

abbrev pub all_hex : Text → Bool
all_hex [] = true
all_hex (c ∷ s) = is_hex c && all_hex s

abbrev pub after_prefix : Text → Text
after_prefix (_ ∷ _ ∷ s) = s
after_prefix _ = []

-- ^0x[0-9a-fA-F]{n}$, of a text without white space at its end
unfoldable pub is_hex_number : ℕ → Text → Bool
is_hex_number n s =
    starts_with (codes "0x") s && (length (after_prefix s) == n) && all_hex (after_prefix s)

-- `is_valid_address`
unfoldable pub is_valid_address : Text → Bool
unfolding is_hex_number
is_valid_address value = is_hex_number 40 (strip value)

abbrev pub with_prefix : Text → Text
with_prefix k = if starts_with (codes "0x") k then k else codes "0x" ++ k

-- `normalize_private_key`
unfoldable pub normalize_private_key : Text → Option Text
unfolding is_hex_number
normalize_private_key raw =
    let k = with_prefix (strip raw) in if is_hex_number 64 k then some k else none

-- The arguments of ClobClient that differ from call to call.
pub record ClobArgs : Type 0 where
  pub key : Text
  pub signature_type : ℕ
  pub funder : Option Text

-- What a ClobClient gives: `none` and `false` where the call raises. The address is empty where
-- there is none; the balance is the number that the exchange reports.
pub record Clob : Type 0 where
  pub opens : ClobArgs → Bool
  pub get_address : ClobArgs → Option Text
  pub api_creds : ClobArgs → Option (Text × Text × Text)
  pub balance : ClobArgs → Option ℕ

pub data ConnectResult : Type 0 where
  connect_result : PolymarketCreds → ℕ → ConnectResult
  wallet_mismatch connect_error : ConnectResult

-- `_parse_usdc`: more than a million is read as atomic units, else as dollars
unfoldable pub parse_usdc : Option ℕ → ℕ
parse_usdc none = 0
parse_usdc (some n) = if ltb 1_000_000 n then n else n * 1_000_000

abbrev pub or_text : Option Text → Text → Text
or_text none d = d
or_text (some t) d = if non_empty t then t else d

abbrev pub mismatched : Option Text → Text → Bool
mismatched none derived = false
mismatched (some wallet) derived =
    non_empty wallet && non_empty derived && not (text_eq (lower derived) (lower wallet))

abbrev pub funder_kwarg : Option Text → Option Text
funder_kwarg none = none
funder_kwarg (some f) = if non_empty f then some f else none

abbrev pub result_of : Clob → ClobArgs → Text → Option (Text × Text × Text) → ConnectResult
result_of c args wallet none = connect_error
result_of c args wallet (some (api_key, secret, passphrase)) =
    connect_result
      (record {
        wallet_address = wallet;
        private_key = some args.key;
        api_key = some api_key;
        api_secret = some secret;
        api_passphrase = some passphrase;
      })
      (parse_usdc (c.balance args))

abbrev pub derive_creds : Clob → ClobArgs → Option Text → Option Text → Option Text → ConnectResult
derive_creds c args wallet funder none = connect_error
derive_creds c args wallet funder (some derived) =
    if mismatched wallet derived
    then wallet_mismatch
    else result_of c args (or_text wallet (or_text funder derived)) (c.api_creds args)

-- `validate_and_derive`
unfoldable pub validate_and_derive : Clob → Text → Option Text → ℕ → Option Text → ConnectResult
unfolding parse_usdc
validate_and_derive c key wallet sig_type funder =
    let args : ClobArgs = record {
      key = key;
      signature_type = sig_type;
      funder = funder_kwarg funder;
    } in
    if c.opens args then derive_creds c args wallet funder (c.get_address args) else connect_error
