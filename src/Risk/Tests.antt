-- ===== src/Risk/Tests.antt =====
-- The theorems about the risk checks at the default limits, for an order of 10 shares at 101 ticks.
use mini_hft_system.Prelude.{◌≡◌, ◌↔◌, refl, [], ◌∷◌, none, some, true, arith}
use mini_hft_system.Prelude.Dict
use mini_hft_system.Prelude.Tests.{text_eq}
use mini_hft_system.Types.{buy, limit, pending, gtc, Symbol}
use mini_hft_system.Order.{Order}
use mini_hft_system.Book.Level.{PriceLevel}
use mini_hft_system.Book.Prices.{item_list}
use mini_hft_system.Engine.{validate_new}
use mini_hft_system.Risk.{
  PreTradeRiskEngine, new_risk, default_limits, check, Within, check_iff, check-validate_new,
}

abbrev name : Symbol
name = 65 ∷ 66 ∷ []

abbrev bid : Order
bid = record {
  symbol = name;
  side = buy;
  order_type = limit;
  quantity = 10;
  price = some 101;
  time_in_force = gtc;
  strategy_id = none;
  client_order_id = none;
  order_id = 1;
  status = pending;
  filled_quantity = 0;
  avg_fill_price = none;
  created_at_ns = 1;
  received_at_ns = 0;
  queued_at_ns = 0;
  processed_at_ns = 0;
  acked_at_ns = 0;
}

abbrev gate : PreTradeRiskEngine
gate = new_risk none

check_iff_example : ((check gate bid).passed ≡ true) ↔ Within default_limits bid
unfolding Dict.get
check_iff_example = check_iff gate bid

check-validate_new_example : validate_new (item_list PriceLevel) bid ≡ none
unfolding check Dict.get
check-validate_new_example = check-validate_new (item_list PriceLevel) gate bid (omega arith) refl
