-- ===== src/Db/Orders.antt =====
-- db/repositories/orders.py: the log of orders. Prices are in millionths, sizes as the caller gives
-- them, in millionths of a share or in micro-dollars.
use poly_holy_market_bot.Prelude.{ℕ, Option, List, [], ◌∷◌, ◌++◌, take, filter, ◌==◌, Text, upper}
use mathlib.Core.List.{reverse}
use poly_holy_market_bot.Db.Models.{Order, OrderStatus, Db}

-- `log_order`
unfoldable pub log_order :
    ℕ
    → Text
    → Text
    → Text
    → ℕ
    → Option ℕ
    → OrderStatus
    → Option Text
    → Option Text
    → Option Text
    → Db
    → Db
log_order account token side order_type size price status clob_order_id title error db = record db {
  orders =
      db.orders
      ++ record {
        account_id = account;
        clob_order_id = clob_order_id;
        token_id = token;
        title = title;
        side = upper side;
        order_type = upper order_type;
        price = price;
        size = size;
        status = status;
        error = error;
      }
        ∷ [];
}

-- `recent_orders`: newest first, in the order of insertion
unfoldable pub recent_orders : ℕ → ℕ → List Order → List Order
recent_orders account limit orders =
    take limit (filter (λ o. o.account_id == account) (reverse orders))
