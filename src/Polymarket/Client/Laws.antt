-- ===== src/Polymarket/Client/Laws.antt =====
-- polymarket/client.py: who can sign.
use poly_holy_market_bot.Prelude.{◌≡◌, Bool, true, false, Option, some, Text, arith}
use poly_holy_market_bot.Polymarket.Client.{
  PolymarketCreds, has_private_key, mismatch, Client, init_clob, from_creds,
}

-- A client that is built from credentials can sign orders exactly if they hold a private key, it
-- trades only if it can sign, and with a key it is refused if the key has another address.
pub from_creds-signing :
    (derives : Bool) (derived : Option Text) (c : PolymarketCreds) (pm : Client)
    → from_creds derives derived c ≡ some pm
    → (pm.order_signing_ready ≡ has_private_key c)
      × (pm.trading_ready ≡ true → pm.order_signing_ready ≡ true)
      × (has_private_key c ≡ true → mismatch c.wallet_address derived ≡ false)
      × (pm.wallet_address ≡ c.wallet_address)
unfolding from_creds init_clob
from_creds-signing derives derived c pm h = ground arith
