-- ===== src/Engine/Runner/Saved.antt =====
-- The items of a saved suggestion (backend/app/engine/runner.py), from whatever was loaded.
use restock_system.Engine.Context.{BySku, write_at, fill_countries, fill_from}
use restock_system.Common.{
  Text, All, Option, Bool, IsDistinct, Dict, keys, ◌≡◌, elem, ℕ, ◌∷◌, some, values, All-values-put,
  subst, false, true, [], put-IsDistinct, some_inj, arith, Bool-cases, text_eq, get_or,
  Option-cases, inl, All-values-get_or, inr, List, none, >>=-eq-some, All-map_to, refl, All-both,
  ◌-◌, sym, ap, ◌<◌, length,
}
use restock_system.Common.Strings.{Unicode}
use restock_system.Common.Floats.{Floats}
use restock_system.Engine.Runner.Config.{
  keep_countries, keep_keys, GlobalConfig, filter_allowed_country_map, is_allowed,
  filter_reportable_country_map, returned,
}
use restock_system.Engine.Runner.Run.{
  Clock, calculated_items, prepare, Database, run_engine, saved, Suggestion, sku_list_of,
}
use restock_system.Engine.Runner.Items.{Loaded, SuggestionItem, Prepared, has_nothing, item_of}
use restock_system.Common.Int.{ℤ, ◌+ℤ◌, pos}
use restock_system.Engine.Runner.Breakdown.{
  IsItem, item_of-IsItem, item_of-countries, items_to_insert-All,
}
use restock_system.Core.Countries.{is_reportable_country_code, resolve_allowed_restock_regions}
use restock_system.Engine.CountryQty.{compute_country_qty}
use restock_system.Engine.Runner.Archive.{drafts, run_engine-draft}

-- Each inner dictionary has its keys once.
abbrev pub AreTables {ℓ} : {A : Type ℓ} → BySku A → Type 0
AreTables m = All (λ d. IsDistinct (keys d)) (values m)

write_at-AreTables {ℓ} :
    {A : Type ℓ} (sku country : Text) (o : Option A) (m : BySku A)
    → AreTables m
    → AreTables (write_at sku country o m)
write_at-AreTables sku country none m h = h
write_at-AreTables sku country (some v) m h =
    All-values-put (λ d. IsDistinct (keys d)) sku _ m
      (put-IsDistinct country v (get_or sku m [])
        (All-values-get_or (λ d. IsDistinct (keys d)) sku [] m tt h))
      h

module _ {ℓ κ} {A : Type ℓ} {B : Type κ} (f : Text → Text → A → Option (Option B)) where
  fill_countries-AreTables :
      (sku : Text) (country_map : Dict Text A) (m result : BySku B)
      → AreTables m
      → fill_countries f sku country_map m ≡ some result
      → AreTables result
  unfolding fill_countries
  fill_countries-AreTables sku [] m result h run = subst AreTables (some_inj run) h
  fill_countries-AreTables sku ((country, v) ∷ country_map) m result h run =
      elim (Option-cases (f sku country v)) [
        | inl failed ↦ let stop = rw (failed, fill_countries) at run in cc
        | inr (o, found) ↦
            fill_countries-AreTables sku country_map (write_at sku country o m) result
              (write_at-AreTables sku country o m h) (rw (found, fill_countries) at run)
      ]

  fill_from-AreTables :
      (entries : BySku A) (m result : BySku B)
      → AreTables m
      → fill_from f entries m ≡ some result
      → AreTables result
  unfolding fill_from
  fill_from-AreTables [] m result h run = subst AreTables (some_inj run) h
  fill_from-AreTables ((sku, country_map) ∷ entries) m result h run =
      elim (Option-cases (fill_countries f sku country_map m)) [
        | inl failed ↦ let stop = rw (failed, fill_from) at run in cc
        | inr (next, found) ↦
            fill_from-AreTables entries next result
              (fill_countries-AreTables sku country_map m next h found)
              (rw (found, fill_from) at run)
      ]

module _ {ℓ} {A : Type ℓ} (p : Text → Bool) where
  elem-keep_keys :
      (k : Text) (d : Dict Text A) → elem k (keys d) ≡ false → elem k (keys (keep_keys p d)) ≡ false
  elem-keep_keys k [] h = h
  elem-keep_keys k ((j, v) ∷ d) h = ground (arith, elem-keep_keys k d, h)

  keep_keys-IsDistinct : (d : Dict Text A) → IsDistinct (keys d) → IsDistinct (keys (keep_keys p d))
  keep_keys-IsDistinct [] h = tt
  keep_keys-IsDistinct ((k, v) ∷ d) h = elim (Bool-cases (p k)) [
    | inl q ↦ rw q (elem-keep_keys k d h.0, keep_keys-IsDistinct d h.1)
    | inr q ↦ rw q (keep_keys-IsDistinct d h.1)
  ]

  keep_countries-AreTables : (m : BySku A) → AreTables m → AreTables (keep_countries p m)
  keep_countries-AreTables [] h = tt
  keep_countries-AreTables ((sku, d) ∷ m) h =
      (keep_keys-IsDistinct d h.0, keep_countries-AreTables m h.1)

  keep_keys-All : (d : Dict Text A) → All (λ k. p k ≡ true) (keys (keep_keys p d))
  keep_keys-All [] = tt
  keep_keys-All ((k, v) ∷ d) = elim (Bool-cases (p k)) [
    | inl q ↦ rw q (q, keep_keys-All d)
    | inr q ↦ rw q (keep_keys-All d)
  ]

  keep_keys-keeps {κ} :
      (Q : Text → Type κ) (d : Dict Text A) → All Q (keys d) → All Q (keys (keep_keys p d))
  keep_keys-keeps Q [] h = tt
  keep_keys-keeps Q ((k, v) ∷ d) h = elim (Bool-cases (p k)) [
    | inl q ↦ rw q (h.0, keep_keys-keeps Q d h.1)
    | inr q ↦ rw q (keep_keys-keeps Q d h.1)
  ]

  keep_countries-All :
      (m : BySku A) → All (λ d. All (λ k. p k ≡ true) (keys d)) (values (keep_countries p m))
  keep_countries-All [] = tt
  keep_countries-All ((sku, d) ∷ m) = (keep_keys-All d, keep_countries-All m)

  keep_countries-keeps {κ} :
      (Q : Text → Type κ) (m : BySku A)
      → All (λ d. All Q (keys d)) (values m)
      → All (λ d. All Q (keys d)) (values (keep_countries p m))
  keep_countries-keeps Q [] h = tt
  keep_countries-keeps Q ((sku, d) ∷ m) h = (keep_keys-keeps Q d h.0, keep_countries-keeps Q m h.1)

-- A country that a run may restock
abbrev pub MayRestock : Unicode → Option (List Text) → Text → Type 0
MayRestock u allowed country =
    (is_reportable_country_code u (some country) ≡ true) × (is_allowed allowed country ≡ true)

AllMayRestock :
    {A : Type 0} (u : Unicode) (allowed : Option (List Text)) (m : BySku A)
    → All
        (λ d. All (MayRestock u allowed) (keys d))
        (values (filter_allowed_country_map u m allowed))
unfolding filter_allowed_country_map filter_reportable_country_map
AllMayRestock u none m =
    All-map_to _ _ _ (λ d h. All-map_to _ (MayRestock u none) (keys d) (λ k q. (q, refl)) h)
      (keep_countries-All (λ c. is_reportable_country_code u (some c)) m)
AllMayRestock u (some allowed) m =
    let reportable : Text → Bool = λ c. is_reportable_country_code u (some c) in
    let inside : Text → Bool = λ c. elem c allowed in
    All-map_to _ (λ d. All (MayRestock u (some allowed)) (keys d))
      (values (keep_countries inside (keep_countries reportable m)))
      (λ d h. All-both (λ c. reportable c ≡ true) (λ c. inside c ≡ true) (keys d) h.0 h.1)
      (All-both (λ d. All (λ c. reportable c ≡ true) (keys d))
        (λ d. All (λ c. inside c ≡ true) (keys d)) _
        (keep_countries-keeps inside (λ c. reportable c ≡ true) (keep_countries reportable m)
          (keep_countries-All reportable m))
        (keep_countries-All inside (keep_countries reportable m)))

filter_allowed-AreTables :
    {A : Type 0} (u : Unicode) (allowed : Option (List Text)) (m : BySku A)
    → AreTables m
    → AreTables (filter_allowed_country_map u m allowed)
unfolding filter_allowed_country_map filter_reportable_country_map
filter_allowed-AreTables u none m h = keep_countries-AreTables _ m h
filter_allowed-AreTables u (some allowed) m h =
    keep_countries-AreTables _ _ (keep_countries-AreTables _ m h)

-- An item as it is saved: its countries are all ones that the run may restock.
abbrev pub IsSavedItem : (fl : Floats) → Unicode → Option (List Text) → SuggestionItem fl → Type 0
IsSavedItem fl u allowed item =
    IsItem fl item × All (MayRestock u allowed) (keys item.country_breakdown)

module _ (u : Unicode) (fl : Floats) (loaded : Loaded fl) (p : Prepared fl)
    (allowed : Option (List Text)) where
  item_of-IsSavedItem :
      AreTables p.country_qty
      → All (λ d. All (MayRestock u allowed) (keys d)) (values p.country_qty)
      → (sku : Text) (n : ℕ) (item : SuggestionItem fl) → has_nothing u fl loaded p sku n ≡ false
      → item_of u fl loaded p sku n ≡ some item
      → IsSavedItem fl u allowed item
  item_of-IsSavedItem tables may sku n item something made = (
    item_of-IsItem u fl loaded p sku n item
        (All-values-get_or (λ d. IsDistinct (keys d)) sku [] p.country_qty tt tables) something
        made,
    subst (λ d. All (MayRestock u allowed) (keys d))
        (sym (item_of-countries u fl loaded p sku n item made))
        (All-values-get_or (λ d. All (MayRestock u allowed) (keys d)) sku [] p.country_qty tt may),
  )

module _ (u : Unicode) (fl : Floats) (clock : Clock) (triggered_by : Text) (demand_date : ℕ)
    (loaded : Loaded fl) where
  calculated_items-IsSavedItem :
      (config : GlobalConfig) (allowed : Option (List Text)) (lead : ℤ)
      (items : List (SuggestionItem fl))
      → calculated_items fl u clock config allowed lead demand_date loaded ≡ some items
      → All (IsSavedItem fl u allowed) items
  unfolding calculated_items prepare compute_country_qty
  calculated_items-IsSavedItem config allowed lead items run =
      let (p, prepared, made) =
        >>=-eq-some (prepare fl u clock config allowed lead demand_date loaded) _ run in
      let (all, found, last) =
        >>=-eq-some
          (compute_country_qty fl u (filter_reportable_country_map u loaded.inventory)
            (config.target_days +ℤ pos (demand_date - clock.today))
            (filter_reportable_country_map u loaded.velocity))
          _ prepared in
      let same = ap (λ (p : Prepared fl). p.country_qty) (some_inj last) in
      let tables = fill_from-AreTables _ _ [] all tt found in
      items_to_insert-All u fl loaded p (IsSavedItem fl u allowed)
        (item_of-IsSavedItem u fl loaded p allowed
          (subst AreTables same (filter_allowed-AreTables u allowed all tables))
          (subst (λ m. All (λ d. All (MayRestock u allowed) (keys d)) (values m)) same
            (AllMayRestock u allowed all)))
        (sku_list_of fl loaded.enabled_skus) items made

  -- After a run that saved a suggestion, this is the only draft, with the id of the outcome and at
  -- least one item; every item has something to purchase or to restock, its total is that of its
  -- countries, all of which are reportable and allowed, and the warehouses of a country that has a
  -- breakdown share exactly its quantity.
  pub run_engine-saved :
      (db after : Database fl) (id : ℕ)
      → run_engine fl u clock triggered_by demand_date loaded db ≡ returned (saved id, after)
      → (s : Suggestion fl) × (allowed : Option (List Text)) × (drafts fl after ≡ s ∷ [])
        × (s.id ≡ id)
        × (0 < s.total_items)
        × (s.total_items ≡ length s.items)
        × (resolve_allowed_restock_regions u db.config.restock_regions ≡ some allowed)
        × All (IsSavedItem fl u allowed) s.items
  run_engine-saved db after id run =
      let (s, single, here, some_items, count, (allowed, lead, regions, made)) =
        run_engine-draft fl u clock triggered_by demand_date loaded db after id run in
      (
        s,
        allowed,
        single,
        here,
        some_items,
        count,
        regions,
        calculated_items-IsSavedItem db.config allowed lead s.items made,
      )
