-- ===== src/Tests/Bridge.antt =====
-- The shadow bridge at concrete inputs.
use match_trader_api.Common.{◌≡◌, refl, some, none, ok, List, [], ◌∷◌}
use match_trader_api.Orders.StopLimit.{buy}
use match_trader_api.Bridge.Event.{OrderEvent, create, edit, limit}
use match_trader_api.Bridge.Planner.{held, previewed, create_pending_order, preview}
use match_trader_api.Bridge.Planner.Previews.{Plans, Sound, preview-Sound}
use match_trader_api.Bridge.Journal.{Delivery, Ordered, record_all, record_all-Ordered}

abbrev event : OrderEvent
event = record {
  source_machine = "m1";
  strategy_instance = "s1";
  event_id = "e1";
  source_order_id = "o1";
  revision = 1;
  emitted_at = 1000000;
  account_id = "acc";
  action = create;
  instrument = "US100";
  side = buy;
  order_type = limit;
  volume_lots = some 100000000;
  price = some 1000;
  trigger_price = none;
  sl_price = some 900;
  tp_price = some 0;
}

preview_limit :
    preview event "acc" 2000000 30000000
    ≡ ok (previewed (create_pending_order "US100" buy 100000000 900 0 1000 limit))
unfolding preview
preview_limit = refl

preview-Sound_example :
    Plans event (Sound event "acc" 2000000 30000000) (preview event "acc" 2000000 30000000)
unfolding match_trader_api.Bridge.Event.validate match_trader_api.Bridge.Event.is_positive
    match_trader_api.Bridge.Event.complete_state
preview-Sound_example = preview-Sound event "acc" 2000000 30000000 refl

abbrev deliveries : List Delivery
deliveries =
    (event, "a", preview event "acc" 2000000 30000000)
    ∷ (record event { event_id = "e2"; revision = 2 }, "b", preview event "acc" 2000000 30000000)
    ∷ (record event { event_id = "e3"; revision = 3; action = edit }, "c", ok (held "edit"))
    ∷ []

record_all-Ordered_example : Ordered (record_all deliveries [])
record_all-Ordered_example = record_all-Ordered deliveries
