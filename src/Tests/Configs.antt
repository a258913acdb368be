-- ===== src/Tests/Configs.antt =====
-- The store of copy configurations at concrete inputs.
use match_trader_api.Common.{true, false, none, some, ok, err, List, [], ◌∷◌, ◌≡◌, refl}
use match_trader_api.Signals.Plan.{lots}
use match_trader_api.Copy.State.{paper_mode, live_mode}
use match_trader_api.Copy.Configs.{Config, Codec, Store, load, matching}
use match_trader_api.Copy.Configs.Saved.{
  Call, upserted, deleted, switched, step, run, IsLimited, run-IsLimited,
}

abbrev auto : Config
auto = record {
  id = "a";
  name = "Auto";
  machine_id = "pc";
  source = "r01Auto";
  connection_name = "";
  additional_sources = "chain" ∷ [];
  x17_only = false;
  destination_broker = "";
  destination_account = "acc";
  accepted_grades = [];
  retract_on_downgrade = true;
  sizing = lots;
  sizing_value = none;
  min_box = 0;
  min_box_enabled = false;
  mode = paper_mode;
  enabled = false;
}

-- A second configuration that is not written, one that is replaced, one that is taken out.
abbrev calls : List Call
calls =
    upserted true auto
    ∷ upserted false (record auto { id = "b" })
    ∷ upserted true (record auto { name = "Again" })
    ∷ deleted true "b"
    ∷ []

-- A codec of one list, which serves for any text.
abbrev codec : Codec
codec = record { dump = λ cs. "["; read = λ text. ok (auto ∷ []) }

abbrev new_store : Store
new_store = record { configs = []; file = none }

run-IsLimited_example : IsLimited (run codec calls new_store).configs
unfolding load
run-IsLimited_example = run-IsLimited codec calls new_store opened
  where
    opened : load codec none ≡ ok new_store
    opened = refl

switch_returns :
    (step codec (switched true "a" (some live_mode) (some true)) (run codec calls new_store)).0
    ≡ ok tt
unfolding step run match_trader_api.Copy.Configs.set_state match_trader_api.Copy.Configs.set_found
    match_trader_api.Copy.Configs.get match_trader_api.Copy.Configs.delete
    match_trader_api.Copy.Configs.upsert match_trader_api.Copy.Configs.save
    match_trader_api.Copy.Configs.put match_trader_api.Copy.Configs.remove
switch_returns = refl

no_such :
    (step codec (deleted true "c") (run codec calls new_store)).0 ≡ err "Unknown copy configuration"
unfolding step run match_trader_api.Copy.Configs.delete match_trader_api.Copy.Configs.get
    match_trader_api.Copy.Configs.upsert load match_trader_api.Copy.Configs.load_onto
    match_trader_api.Copy.Configs.save match_trader_api.Copy.Configs.put
    match_trader_api.Copy.Configs.remove
no_such = refl

chain_matches :
    matching "pc" "chain" (record auto { enabled = true } ∷ auto ∷ [])
    ≡ record auto { enabled = true } ∷ []
unfolding matching match_trader_api.Copy.Configs.matches
chain_matches = refl
