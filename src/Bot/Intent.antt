-- ===== src/Bot/Intent.antt =====
-- bot/handlers/confirm.py: an order intent, what it needs, and how an answer of the exchange is
-- read. Prices are in millionths, sizes in millionths of a share, amounts in micro-dollars; of a
-- market sell the amount is a size. Times are seconds.
use poly_holy_market_bot.Prelude.{
  ℕ, ◌*◌, ◌/◌, Bool, true, false, ◌&&◌, ◌||◌, not, Option, none, some, List, [], ◌∷◌, any,
  if◌then◌else◌, ◌==◌, Text, codes, text_eq, lower, non_empty,
}
use poly_holy_market_bot.Polymarket.Client.{
  Client, bad_argument, Submission, refuses, place_limit_order, place_market_order,
  place_capped_buy, cancel_order, cancel_all_orders,
}

pub data Kind : Type 0 where
  limit market close cancel cancel_all unknown : Kind

-- The keys of an intent; `none` where a key is missing. A missing side, token, market or outcome
-- is read as the empty text.
pub record Intent : Type 0 where
  pub kind : Kind
  pub side : Text
  pub token_id : Text
  pub title : Option Text
  pub price : Option ℕ
  pub size : Option ℕ
  pub amount : Option ℕ
  pub max_price : Option ℕ
  pub neg_risk : Option Bool
  pub order_id : Option Text
  pub source : Text
  pub market_id : Text
  pub outcome : Text
  pub entry_price : Option ℕ
  pub account_id : Option ℕ
  pub pending_intent_id : Option ℕ
  pub ts : ℕ

abbrev pub ttl_seconds : ℕ
ttl_seconds = 120

abbrev pub is_news : Intent → Bool
is_news i = text_eq i.source (codes "news")

abbrev pub is_close : Kind → Bool
is_close k = elim k [ close ↦ true | _ ↦ false ]

abbrev pub is_market : Kind → Bool
is_market k = elim k [ market ↦ true | _ ↦ false ]

abbrev pub is_cancel : Kind → Bool
is_cancel k = elim k [ cancel ↦ true | cancel_all ↦ true | _ ↦ false ]

-- the local `always_confirm` of `request`
unfoldable pub always_confirm : Intent → Bool
always_confirm i =
    elim i.kind [ cancel_all ↦ true | close ↦ true | _ ↦ false ]
    || (is_market i.kind && text_eq i.side (codes "sell"))
    || is_news i

abbrev pub no_zero : Option ℕ → Option ℕ
no_zero none = none
no_zero (some x) = if x == 0 then none else some x

abbrev pub or_zero : Option ℕ → ℕ
or_zero none = 0
or_zero (some x) = x

-- `_notional_usd`
unfoldable pub notional_usd : Intent → ℕ
notional_usd i = elim i.kind [
  | market ↦ if text_eq i.side (codes "buy") then or_zero i.amount else 0
  | limit ↦ or_zero i.price * or_zero i.size / 1_000_000
  | _ ↦ 0
]

-- What the `try` of `_execute` evaluates before the exchange answers; `none` for an unknown kind.
-- A key that is missing where it is indexed raises.
unfoldable pub submit : Client → Intent → Option Submission
submit c i = elim i.kind [
  | limit ↦ some (elim i.price [
    | none ↦ refuses bad_argument
    | some p ↦ elim i.size [
      | none ↦ refuses bad_argument
      | some s ↦ place_limit_order c i.token_id p s i.side none
    ]
  ])
  | market ↦ some (elim i.amount [
    | none ↦ refuses bad_argument
    | some a ↦ elim (if text_eq i.side (codes "buy") then no_zero i.max_price else none) [
      | none ↦ place_market_order c i.token_id a i.side
      | some cap ↦ place_capped_buy c i.token_id a cap i.neg_risk
    ]
  ])
  | close ↦ some (elim i.size [
    | none ↦ refuses bad_argument
    | some s ↦ place_market_order c i.token_id s (codes "sell")
  ])
  | cancel ↦ some (elim i.order_id [ none ↦ refuses bad_argument | some o ↦ cancel_order c o ])
  | cancel_all ↦ some (cancel_all_orders c)
  | unknown ↦ none
]

-- The dictionary that the exchange answers with, by what the code reads of it.
pub record Result : Type 0 where
  pub success_is_false : Bool
  pub error : Option Text
  pub error_msg : Option Text
  pub message : Option Text
  pub order_ids : List (Option Text)
  pub status : Option Text
  pub canceled : ℕ

-- an exception with its type name and its detail
pub record Failure : Type 0 where
  pub name : Text
  pub detail : Text

pub data Answer : Type 0 where
  fails : Failure → Answer
  no_dict : Answer
  dict : Result → Answer

abbrev pub is_truthy : Option Text → Bool
is_truthy none = false
is_truthy (some t) = non_empty t

-- Python's `a or b` on optional texts
abbrev pub or_text : Option Text → Option Text → Option Text
or_text a b = if is_truthy a then a else b

-- `_result_ok`
unfoldable pub result_ok : Answer → Bool
result_ok (fails f) = false
result_ok no_dict = true
result_ok (dict r) =
    not r.success_is_false && not (is_truthy r.error) && not (is_truthy r.error_msg)

-- the first id that is not empty, and the last one if all are
abbrev pub first_id : List (Option Text) → Option Text
first_id [] = none
first_id (o ∷ os) = elim os [ [] ↦ o | _ ∷ _ ↦ if is_truthy o then o else first_id os ]

-- `_result_order_id`
unfoldable pub result_order_id : Answer → Option Text
result_order_id (fails f) = none
result_order_id no_dict = none
result_order_id (dict r) = first_id r.order_ids

-- `_result_detail`
unfoldable pub result_detail : Answer → Text
result_detail (fails f) = []
result_detail no_dict = []
result_detail (dict r) = elim (or_text r.error (or_text r.error_msg r.message)) [
  | none ↦ []
  | some t ↦ t
]

abbrev pub starts_with : Text → Text → Bool
starts_with [] t = true
starts_with (c ∷ s) [] = false
starts_with (c ∷ s) (d ∷ t) = (c == d) && starts_with s t

abbrev pub contains : Text → Text → Bool
contains s [] = starts_with s []
contains s (d ∷ t) = starts_with s (d ∷ t) || contains s t

abbrev pub funding_hints : List Text
funding_hints =
    codes "insufficient"
    ∷ codes "not enough"
    ∷ codes "allowance"
    ∷ codes "balance"
    ∷ codes "funds"
    ∷ codes "fund"
    ∷ []

-- `_fail_key` and `_fail`: the message about money, the one with a reason, or the plain one
pub data FailKey : Type 0 where
  insufficient failed_reason failed : FailKey

unfoldable pub fail_key : Text → FailKey
fail_key detail =
    let low = lower detail in
    if any (λ s. contains s low) funding_hints
    then insufficient
    else if non_empty detail
    then failed_reason
    else failed
