-- ===== src/Engine/Runner/Config.antt =====
-- The configuration of a run and the maps cut down to the countries that it allows (`_config_snapshot`,
use restock_system.Common.{
  Bool, Option, Text, List, if◌then◌else◌, Dict, [], true, ◌∷◌, some, elem, not, put, for_each,
  none, ◌&&◌, add_member, text_eq, keys, get_or,
}
use restock_system.Common.Int.{ℤ, leb_ℤ, pos, ltb_ℤ}
use restock_system.Common.Strings.{Unicode}
use restock_system.Engine.Context.{BySku, InventoryStock}
use restock_system.Common.Floats.{Floats}
use restock_system.Core.Countries.{is_reportable_country_code}

-- the checks of `run_engine`, `_filter_reportable_country_map`, `_filter_allowed_country_map`,
-- `_missing_inventory_countries_by_sku`).

pub record GlobalConfig : Type 0 where
  pub suggestion_generation_enabled : Bool
  pub buffer_days : ℤ
  pub target_days : ℤ
  pub lead_time_days : Option ℤ
  pub safety_stock_days : ℤ
  pub restock_regions : Option (List (Option Text))
  pub eu_countries : Option (List Text)
  pub shop_sync_mode : Text

-- Why a run raises: one `ValueError` each, then an exception of the arithmetic of floats; or why its job
-- raises behind the run.
pub data EngineError : Type 0 where
  bad_restock_regions bad_target_days bad_buffer_days bad_lead_time_days bad_safety_stock_days
        target_below_lead_time bad_arithmetic interrupted_job :
      EngineError

-- The result of code that may raise
pub data Result {ℓ} (A : Type ℓ) : Type ℓ where
  raised : EngineError → Result A
  returned : A → Result A

-- The checks of the configuration, in their order: the lead time, where all of them pass
unfoldable pub checked_lead_time : GlobalConfig → Result ℤ
checked_lead_time config =
    if leb_ℤ config.target_days (pos 0)
    then raised bad_target_days
    else if ltb_ℤ config.buffer_days (pos 0)
    then raised bad_buffer_days
    else elim config.lead_time_days [
      | none ↦ raised bad_lead_time_days
      | some lead_time_days ↦
          if ltb_ℤ lead_time_days (pos 0)
          then raised bad_lead_time_days
          else if ltb_ℤ config.safety_stock_days (pos 0)
          then raised bad_safety_stock_days
          else if ltb_ℤ config.target_days lead_time_days
          then raised target_below_lead_time
          else returned lead_time_days
    ]

pub record ConfigSnapshot : Type 0 where
  pub buffer_days : ℤ
  pub target_days : ℤ
  pub lead_time_days : Option ℤ
  pub safety_stock_days : ℤ
  pub restock_regions : List (Option Text)
  pub eu_countries : List Text
  pub shop_sync_mode : Text
  pub snapshot_at : Text
  pub demand_date : Option Text

-- `list(xs or [])`
abbrev pub list_or_empty {ℓ} : {A : Type ℓ} → Option (List A) → List A
list_or_empty none = []
list_or_empty (some xs) = xs

unfoldable pub config_snapshot : GlobalConfig → Text → Option Text → ConfigSnapshot
config_snapshot config now demand_date = record {
  buffer_days = config.buffer_days;
  target_days = config.target_days;
  lead_time_days = config.lead_time_days;
  safety_stock_days = config.safety_stock_days;
  restock_regions = list_or_empty config.restock_regions;
  eu_countries = list_or_empty config.eu_countries;
  shop_sync_mode = config.shop_sync_mode;
  snapshot_at = now;
  demand_date = demand_date;
}

-- `{k: v for k, v in d.items() if p(k)}`
abbrev pub keep_keys {ℓ} : {A : Type ℓ} → (Text → Bool) → Dict Text A → Dict Text A
keep_keys p [] = []
keep_keys p ((k, v) ∷ d) = let rest = keep_keys p d in if p k then (k, v) ∷ rest else rest

abbrev pub keep_countries {ℓ} : {A : Type ℓ} → (Text → Bool) → BySku A → BySku A
keep_countries p [] = []
keep_countries p ((sku, country_map) ∷ m) = (sku, keep_keys p country_map) ∷ keep_countries p m

-- `allowed_countries is None or country in allowed_countries`
abbrev pub is_allowed : Option (List Text) → Text → Bool
is_allowed none country = true
is_allowed (some countries) country = elem country countries

module _ (u : Unicode) where
  unfoldable pub filter_reportable_country_map {ℓ} : {A : Type ℓ} → BySku A → BySku A
  filter_reportable_country_map m =
      keep_countries (λ country. is_reportable_country_code u (some country)) m

  unfoldable pub filter_allowed_country_map {ℓ} :
      {A : Type ℓ} → BySku A → Option (List Text) → BySku A
  filter_allowed_country_map m none = filter_reportable_country_map m
  filter_allowed_country_map m (some allowed) =
      keep_countries (λ country. elem country allowed) (filter_reportable_country_map m)

  module _ (fl : Floats) (inventory : BySku InventoryStock)
      (allowed_countries : Option (List Text)) where
    -- Whether a country of a sku lacks its stock
    unfoldable pub is_missing_inventory : Text → Text → fl.Float → Bool
    is_missing_inventory sku country daily_rate =
        not (fl.le daily_rate (fl.of_int (pos 0)))
        && is_reportable_country_code u (some country)
        && is_allowed allowed_countries country
        && not (elem country (keys (get_or sku inventory [])))

    abbrev pub add_missing : Text → Text × fl.Float → Dict Text (List Text) → Dict Text (List Text)
    add_missing sku (country, daily_rate) result =
        if is_missing_inventory sku country daily_rate
        then put sku (add_member country (get_or sku result [])) result
        else result

    unfoldable pub missing_inventory_countries_by_sku : BySku fl.Float → Dict Text (List Text)
    missing_inventory_countries_by_sku velocity =
        for_each (λ (entry : Text × Dict Text fl.Float). for_each (add_missing entry.0) entry.1)
          velocity []
