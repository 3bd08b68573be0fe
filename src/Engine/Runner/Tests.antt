-- ===== src/Engine/Runner/Tests.antt =====
-- A run of the engine on concrete tables, and the theorems on it.
use restock_system.Engine.Tests.{ascii, whole_floats}
use restock_system.Engine.Runner.Config.{
  GlobalConfig, Result, checked_lead_time, config_snapshot, returned, raised,
  filter_reportable_country_map, filter_allowed_country_map, interrupted_job,
}
use restock_system.Common.{
  true, codes, ◌∷◌, Option, ◌≡◌, some, [], none, arith, List, Text, ◌↔◌, refl, ◌<◌, length, All,
  false,
}
use restock_system.Engine.Context.{BySku, fill_from, fill_countries, stock_total}
use restock_system.Engine.Runner.Items.{Loaded, item_of, items_to_insert, split_countries}
use restock_system.Engine.Runner.Run.{
  Clock, Suggestion, Database, run_engine, calc_engine_job, draft, RunOutcome, run_with, turn_off,
  finish_job, run_checked, finish_run, saved, generation_disabled, calculated_items, prepare,
}
use restock_system.Engine.Runner.Archive.{
  IsConsistent, run_engine-IsConsistent, drafts, calc_engine_job-once, IsSound,
  checked_lead_time-IsSound,
}
use restock_system.Engine.Total.{compute_total, safety_qty_of}
use restock_system.Engine.Runner.Inputs.{
  PurchaseInputs, purchase_inputs, build_calculation_inputs_snapshot, country_inputs,
  restock_inputs,
}
use restock_system.Common.Int.{pos, ◌+ℤ◌, ◌-ℤ◌, pos_part, ◌*ℤ◌}
use restock_system.Engine.Runner.Breakdown.{purchase_inputs-compute_total}
use restock_system.Core.Countries.{
  resolve_allowed_restock_regions, normalize_restock_regions, restock_regions_from, trimmed_upper,
  normalize_observed_country_code, is_valid_observed_country_code, is_two_letters,
  is_reportable_country_code, normalize_reportable_country_code, resolve_alias,
}
use restock_system.Engine.Runner.Saved.{IsSavedItem, run_engine-saved}
use restock_system.Common.Strings.{strip}
use restock_system.Engine.CountryQty.{compute_country_qty, country_qty_of}
use restock_system.Engine.Split.{explain_country_qty_split}
use restock_system.Engine.Allocate.{allocate_even}

abbrev config : GlobalConfig
config = record {
  suggestion_generation_enabled = true;
  buffer_days = pos 5;
  target_days = pos 30;
  lead_time_days = some (pos 20);
  safety_stock_days = pos 10;
  restock_regions = some (some (codes "us") ∷ []);
  eu_countries = none;
  shop_sync_mode = codes "all";
}

abbrev us_map : {A : Type 0} → A → BySku A
us_map a = (codes "S", (codes "US", a) ∷ []) ∷ []

abbrev loaded : Loaded whole_floats
loaded = record {
  enabled_skus = (codes "S", none) ∷ [];
  velocity = us_map (pos 2);
  sale_days = us_map (pos 5);
  inventory = us_map (record { available = pos 4; reserved = pos 1; in_transit = pos 5 });
  local_stock = [];
  country_warehouses = (codes "US", codes "west" ∷ codes "east" ∷ []) ∷ [];
  zipcode_rules = [];
  all_orders = [];
}

abbrev clock : Clock
clock = record { today = 100; now = codes "now"; isoformat = λ n. codes "day" }

abbrev old_draft : Suggestion whole_floats
old_draft = record {
  id = 6;
  status = draft;
  global_config_snapshot = config_snapshot config (codes "then") none;
  triggered_by = codes "scheduler";
  total_items = 0;
  procurement_item_count = 0;
  restock_item_count = 0;
  archived_at = none;
  items = [];
}

abbrev database : Database whole_floats
database = record { config = config; suggestions = old_draft ∷ []; next_id = 7 }

-- The tables after a run that returned
abbrev tables_of : Result (RunOutcome × Database whole_floats) → Database whole_floats
tables_of (raised e) = database
tables_of (returned done) = done.1

abbrev after : Database whole_floats
after = tables_of (run_engine whole_floats ascii clock (codes "user") 100 loaded database)

run :
    run_engine whole_floats ascii clock (codes "user") 100 loaded database
    ≡ returned (saved 7, after)
unfolding run_engine run_with run_checked finish_run resolve_allowed_restock_regions
    normalize_restock_regions restock_regions_from trimmed_upper strip
    normalize_observed_country_code is_valid_observed_country_code is_two_letters checked_lead_time
    calculated_items prepare compute_country_qty fill_from filter_reportable_country_map
    fill_countries is_reportable_country_code normalize_reportable_country_code ◌+ℤ◌ ◌-ℤ◌ ◌*ℤ◌
    resolve_alias stock_total country_qty_of filter_allowed_country_map
    build_calculation_inputs_snapshot country_inputs purchase_inputs restock_inputs item_of
    items_to_insert split_countries explain_country_qty_split compute_total safety_qty_of
    allocate_even
run = refl

database-IsConsistent : IsConsistent whole_floats ascii clock (codes "user") 100 loaded database
database-IsConsistent = (omega arith, (omega arith, tt), (refl, tt))

run_engine-saved_example :
    (s : Suggestion whole_floats) × (allowed : Option (List Text)) × (drafts whole_floats after
      ≡ s ∷ [])
    × (s.id ≡ 7)
    × (0 < s.total_items)
    × (s.total_items ≡ length s.items)
    × (resolve_allowed_restock_regions ascii config.restock_regions ≡ some allowed)
    × All (IsSavedItem whole_floats ascii allowed) s.items
run_engine-saved_example =
    run_engine-saved ascii whole_floats clock (codes "user") 100 loaded database after 7 run

run_engine-IsConsistent_example :
    IsConsistent whole_floats ascii clock (codes "user") 100 loaded after
run_engine-IsConsistent_example =
    run_engine-IsConsistent whole_floats ascii clock (codes "user") 100 loaded database after
      (saved 7) database-IsConsistent run

abbrev off : Database whole_floats
off = turn_off whole_floats ascii after

job_run :
    calc_engine_job whole_floats ascii clock (codes "user") 100 loaded false database
    ≡ (returned (saved 7), off)
unfolding calc_engine_job finish_job
job_run = rw run refl

calc_engine_job-once_example :
    calc_engine_job whole_floats ascii clock (codes "user") 101 loaded false off
    ≡ (returned generation_disabled, off)
calc_engine_job-once_example =
    calc_engine_job-once whole_floats ascii clock (codes "user") 100 loaded clock (codes "user") 101
      loaded false false database off 7 job_run

-- A job that is interrupted behind the commit leaves the suggestion, and the generation on.
interrupted_run :
    calc_engine_job whole_floats ascii clock (codes "user") 100 loaded true database
    ≡ (raised interrupted_job, after)
unfolding calc_engine_job finish_job
interrupted_run = rw run refl

checked_lead_time-IsSound_example :
    (checked_lead_time config ≡ returned (pos 20)) ↔ IsSound config (pos 20)
checked_lead_time-IsSound_example = checked_lead_time-IsSound config (pos 20)

total_run :
    compute_total whole_floats ((codes "US", pos 50) ∷ []) ((codes "US", pos 2) ∷ []) none (pos 10)
    ≡ some 70
unfolding compute_total safety_qty_of ◌+ℤ◌ ◌-ℤ◌ ◌*ℤ◌
total_run = refl

purchase_inputs-compute_total_example :
    (inputs : PurchaseInputs whole_floats) × (purchase_inputs whole_floats
        (pos 10)
        ((codes "US", pos 50) ∷ [])
        ((codes "US", pos 2) ∷ [])
        none
        70
      ≡ some inputs)
    × (inputs.final_purchase_qty ≡ pos_part inputs.raw_purchase_qty)
purchase_inputs-compute_total_example =
    purchase_inputs-compute_total whole_floats (pos 10) ((codes "US", pos 50) ∷ [])
      ((codes "US", pos 2) ∷ []) none 70 total_run
