-- ===== src/Engine/Runner/Run.antt =====
-- The state that a run changes, and the run: `run_engine`, `_archive_active`, `_persist_suggestion` and
-- `calc_engine_job`. What raises before the commit of the run leaves the tables as they were; the job turns
-- the generation off in a second transaction, behind that commit.
use restock_system.Engine.Runner.Config.{
  raised, ConfigSnapshot, GlobalConfig, Result, returned, bad_arithmetic, bad_restock_regions,
  filter_reportable_country_map, config_snapshot, checked_lead_time, filter_allowed_country_map,
  missing_inventory_countries_by_sku, interrupted_job,
}
use restock_system.Common.{
  Bool, ℕ, true, Text, List, false, Option, if◌then◌else◌, map, ◌∷◌, ◌+◌, some, length, ◌++◌, ltb,
  [], sorted, Dict, is_nil, not, ◌>>=◌, for_each, ◌-◌, none, from_keys, put, keys, text_eq,
}
use restock_system.Common.Floats.{Floats}
use restock_system.Common.Strings.{Unicode, text_le}
use restock_system.Engine.Runner.Items.{SuggestionItem, Loaded, Prepared, items_to_insert}
use restock_system.Common.Int.{ℤ, ltb_ℤ, pos, ◌+ℤ◌}
use restock_system.Core.Countries.{resolve_allowed_restock_regions}
use restock_system.Engine.CountryQty.{compute_country_qty}

pub data SuggestionStatus : Type 0 where
  draft archived error : SuggestionStatus

abbrev pub is_draft : SuggestionStatus → Bool
is_draft draft = true
is_draft _ = false

pub record Suggestion (fl : Floats) : Type 0 where
  pub id : ℕ
  pub status : SuggestionStatus
  pub global_config_snapshot : ConfigSnapshot
  pub triggered_by : Text
  pub total_items : ℕ
  pub procurement_item_count : ℕ
  pub restock_item_count : ℕ
  pub archived_at : Option Text
  pub items : List (SuggestionItem fl)

-- The tables: the configuration, the suggestions with their items, and the next id.
pub record Database (fl : Floats) : Type 0 where
  pub config : GlobalConfig
  pub suggestions : List (Suggestion fl)
  pub next_id : ℕ

-- How a run ends
pub data RunOutcome : Type 0 where
  generation_disabled no_enabled_sku no_suggestion_needed : RunOutcome
  saved : ℕ → RunOutcome

-- The dates and the clock
pub record Clock : Type 0 where
  pub today : ℕ
  pub now : Text
  pub isoformat : ℕ → Text

abbrev pub count_matching {ℓ} : {A : Type ℓ} → (A → Bool) → List A → ℕ
count_matching p [] = 0
count_matching p (x ∷ xs) = (if p x then 1 else 0) + count_matching p xs

module _ (fl : Floats) where
  abbrev pub archive : Text → Suggestion fl → Suggestion fl
  archive now s =
      if is_draft s.status then record s { status = archived; archived_at = some now } else s

  unfoldable pub archive_active : Text → Database fl → Database fl
  archive_active now db = record db { suggestions = map (archive now) db.suggestions }

  abbrev pub suggestion_of : ℕ → ConfigSnapshot → Text → List (SuggestionItem fl) → Suggestion fl
  suggestion_of id global_snapshot triggered_by items = record {
    id = id;
    status = draft;
    global_config_snapshot = global_snapshot;
    triggered_by = triggered_by;
    total_items = length items;
    procurement_item_count =
        count_matching (λ (item : SuggestionItem fl). ltb 0 item.purchase_qty) items;
    restock_item_count =
        count_matching (λ (item : SuggestionItem fl). ltb_ℤ (pos 0) item.total_qty) items;
    archived_at = none;
    items = items;
  }

  unfoldable pub persist_suggestion :
      ConfigSnapshot → Text → List (SuggestionItem fl) → Database fl → Database fl
  persist_suggestion global_snapshot triggered_by items db = record db {
    suggestions =
        db.suggestions ++ suggestion_of db.next_id global_snapshot triggered_by items ∷ [];
    next_id = db.next_id + 1;
  }

  -- `sorted({row[0] for row in enabled_skus})`
  abbrev pub sku_list_of : List (Text × Option ℤ) → List Text
  sku_list_of enabled_skus = sorted text_le (from_keys (keys enabled_skus))

  abbrev pub sku_lead_times : List (Text × Option ℤ) → Dict Text (Option ℤ)
  sku_lead_times enabled_skus =
      for_each (λ (row : Text × Option ℤ). put row.0 row.1) enabled_skus []

  module _ (u : Unicode) where
    -- The maps of a run, where the arithmetic of step 3 does not raise
    unfoldable pub prepare :
        Clock → GlobalConfig → Option (List Text) → ℤ → ℕ → Loaded fl → Option (Prepared fl)
    prepare clock config allowed_countries lead_time_days demand_date loaded =
        let demand_days = demand_date - clock.today in
        let effective_target_days = config.target_days +ℤ pos demand_days in
        let velocity = filter_reportable_country_map u loaded.velocity in
        let inventory = filter_reportable_country_map u loaded.inventory in
        do
          country_qty_all ← compute_country_qty fl u inventory effective_target_days velocity
          some (record {
            velocity = velocity;
            sale_days = filter_reportable_country_map u loaded.sale_days;
            inventory = inventory;
            country_qty = filter_allowed_country_map u country_qty_all allowed_countries;
            missing_inventory =
                missing_inventory_countries_by_sku u fl inventory allowed_countries velocity;
            sku_lead_time = sku_lead_times loaded.enabled_skus;
            lead_time_days = lead_time_days;
            days = record {
              target_days = config.target_days;
              demand_days = demand_days;
              effective_target_days = effective_target_days;
              safety_stock_days = config.safety_stock_days;
            };
            generated_at = clock.now;
            demand_date = clock.isoformat demand_date;
          })

    -- The part of `run_engine` behind the checks: the items
    unfoldable pub calculated_items :
        Clock
        → GlobalConfig
        → Option (List Text)
        → ℤ
        → ℕ
        → Loaded fl
        → Option (List (SuggestionItem fl))
    calculated_items clock config allowed_countries lead_time_days demand_date loaded = do
      p ← prepare clock config allowed_countries lead_time_days demand_date loaded
      items_to_insert u fl loaded p (sku_list_of loaded.enabled_skus)

    -- The end of a run, on its items
    unfoldable pub finish_run :
        Clock
        → Text
        → ℕ
        → Database fl
        → Option (List (SuggestionItem fl))
        → Result (RunOutcome × Database fl)
    finish_run clock triggered_by demand_date db none = raised bad_arithmetic
    finish_run clock triggered_by demand_date db (some []) = returned (no_suggestion_needed, db)
    finish_run clock triggered_by demand_date db (some (item ∷ items)) =
        let global_snapshot =
          config_snapshot db.config clock.now (some (clock.isoformat demand_date)) in
        returned (
          saved db.next_id,
          persist_suggestion global_snapshot triggered_by (item ∷ items)
              (archive_active clock.now db),
        )

    -- The run behind the checks of the configuration
    unfoldable pub run_checked :
        Clock
        → Text
        → ℕ
        → Loaded fl
        → Option (List Text)
        → ℤ
        → Database fl
        → Result (RunOutcome × Database fl)
    run_checked clock triggered_by demand_date loaded allowed_countries lead_time_days db =
        if is_nil (sku_list_of loaded.enabled_skus)
        then returned (no_enabled_sku, db)
        else finish_run clock triggered_by demand_date db
            (calculated_items clock db.config allowed_countries lead_time_days demand_date loaded)

    -- The run behind the reading of the regions and the checks
    unfoldable pub run_with :
        Clock
        → Text
        → ℕ
        → Loaded fl
        → Database fl
        → Option (Option (List Text))
        → Result ℤ
        → Result (RunOutcome × Database fl)
    run_with clock triggered_by demand_date loaded db none checked = raised bad_restock_regions
    run_with clock triggered_by demand_date loaded db (some allowed_countries) (raised e) = raised e
    run_with clock triggered_by demand_date loaded db (some allowed_countries)
          (returned lead_time_days) =
        run_checked clock triggered_by demand_date loaded allowed_countries lead_time_days db

    unfoldable pub run_engine :
        Clock → Text → ℕ → Loaded fl → Database fl → Result (RunOutcome × Database fl)
    run_engine clock triggered_by demand_date loaded db =
        if not db.config.suggestion_generation_enabled
        then returned (generation_disabled, db)
        else run_with clock triggered_by demand_date loaded db
            (resolve_allowed_restock_regions u db.config.restock_regions)
            (checked_lead_time db.config)

    -- A job that saved a suggestion turns the generation off, in a transaction of its own.
    abbrev pub turn_off : Database fl → Database fl
    turn_off db = record db { config = record db.config { suggestion_generation_enabled = false } }

    -- What a run comes to, and the tables behind it. `interrupted` says that something raises between the
    -- commit of a suggestion and that of the second transaction: the report of progress, or the second
    -- transaction itself. The suggestion stays then, and so does the generation.
    abbrev pub after_run : Bool → RunOutcome × Database fl → Result RunOutcome × Database fl
    after_run interrupted (saved id, db) =
        if interrupted then (raised interrupted_job, db) else (returned (saved id), turn_off db)
    after_run interrupted (outcome, db) = (returned outcome, db)

    unfoldable pub finish_job :
        Bool → Database fl → Result (RunOutcome × Database fl) → Result RunOutcome × Database fl
    finish_job interrupted db (raised e) = (raised e, db)
    finish_job interrupted db (returned done) = after_run interrupted done

    -- `calc_engine_job`, for a payload with a date
    unfoldable pub calc_engine_job :
        Clock → Text → ℕ → Loaded fl → Bool → Database fl → Result RunOutcome × Database fl
    calc_engine_job clock triggered_by demand_date loaded interrupted db =
        finish_job interrupted db (run_engine clock triggered_by demand_date loaded db)
