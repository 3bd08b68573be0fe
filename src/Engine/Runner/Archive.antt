-- ===== src/Engine/Runner/Archive.antt =====
-- The tables before and after a run (`run_engine`, `_archive_active`, `_persist_suggestion`,
-- `calc_engine_job`), and the checks of the configuration.
use mathlib.Core.List.{map-append}
use restock_system.Engine.Runner.Run.{
  Database, is_draft, RunOutcome, calc_engine_job, Suggestion, Clock, archive, run_checked,
  run_engine, saved, archive_active, persist_suggestion, finish_run, run_with, finish_job,
  generation_disabled, no_suggestion_needed, suggestion_of, sku_list_of, no_enabled_sku,
  calculated_items,
}
use restock_system.Engine.Runner.Config.{
  GlobalConfig, Result, checked_lead_time, returned, raised, ConfigSnapshot, config_snapshot,
}
use restock_system.Common.Int.{ℤ, pos, ◌≤ℤ◌}
use restock_system.Common.Floats.{Floats}
use restock_system.Common.{
  ◌≡◌, List, Text, some, ◌↔◌, arith, keep_if, ℕ, map, [], true, ◌++◌, ◌∷◌, ◌≢◌, refl, length,
  Option, Bool-cases, subst, if-cases, ◌≤◌, not, inl, is_nil, inr, none, All, ap, ◌<◌, sym, false,
  elem, IsDistinct, ◌∙◌, nat_beq_iff, nat_eq, ◌+◌, All-snoc, All-map_to, snoc-IsDistinct,
  keep_if-snoc, Bool,
}
use restock_system.Common.Strings.{Unicode}
use restock_system.Engine.Runner.Items.{Loaded, SuggestionItem}
use restock_system.Core.Countries.{resolve_allowed_restock_regions}

-- The configuration passes the checks with this lead time.
abbrev pub IsSound : GlobalConfig → ℤ → Type 0
IsSound config lead_time_days =
    (config.lead_time_days ≡ some lead_time_days)
    × (pos 1 ≤ℤ config.target_days)
    × (pos 0 ≤ℤ config.buffer_days)
    × (pos 0 ≤ℤ lead_time_days)
    × (pos 0 ≤ℤ config.safety_stock_days)
    × (lead_time_days ≤ℤ config.target_days)

-- The checks of the configuration pass exactly for a lead time that is there, with no bound negative,
-- a target above zero and the lead time within the target.
pub checked_lead_time-IsSound :
    (config : GlobalConfig) (lead_time_days : ℤ)
    → (checked_lead_time config ≡ returned lead_time_days) ↔ IsSound config lead_time_days
unfolding checked_lead_time
checked_lead_time-IsSound config lead_time_days = ground arith

returned_inj {ℓ} : {A : Type ℓ} {a b : A} → returned a ≡ returned b → a ≡ b
returned_inj h = cc

not_elem_of_below : (n : ℕ) (is : List ℕ) → All (λ i. i < n) is → elem n is ≡ false
not_elem_of_below n [] h = refl
not_elem_of_below n (i ∷ is) h = ground (arith, nat_beq_iff i n, not_elem_of_below n is h.1, h.0)

module _ (fl : Floats) where
  abbrev pub drafts : Database fl → List (Suggestion fl)
  drafts db = keep_if (λ (s : Suggestion fl). is_draft s.status) db.suggestions

  no_draft_archived :
      (now : Text) (ss : List (Suggestion fl))
      → keep_if (λ (s : Suggestion fl). is_draft s.status) (map (archive fl now) ss) ≡ []
  no_draft_archived now [] = refl
  no_draft_archived now (s ∷ ss) = elim (Bool-cases (is_draft s.status)) [
    | inl q ↦ rw q (no_draft_archived now ss)
    | inr q ↦ rw (q, q) (no_draft_archived now ss)
  ]

  one_draft :
      (now : Text) (ss : List (Suggestion fl)) (s : Suggestion fl)
      → is_draft s.status ≡ true
      → keep_if (λ (s : Suggestion fl). is_draft s.status) (map (archive fl now) ss ++ s ∷ [])
        ≡ s ∷ []
  one_draft now ss s h =
      keep_if-snoc (λ (s : Suggestion fl). is_draft s.status) (map (archive fl now) ss) s
      ∙ rw (no_draft_archived now ss) (rw h refl)

  abbrev pub ids : List (Suggestion fl) → List ℕ
  ids = map (λ (s : Suggestion fl). s.id)

  ids-archive : (now : Text) (ss : List (Suggestion fl)) → ids (map (archive fl now) ss) ≡ ids ss
  ids-archive now [] = refl
  ids-archive now (s ∷ ss) = elim (Bool-cases (is_draft s.status)) [
    | inl q ↦ rw q (ap (λ is. s.id ∷ is) (ids-archive now ss))
    | inr q ↦ rw q (ap (λ is. s.id ∷ is) (ids-archive now ss))
  ]

  length-pos_of_ne : (items : List (SuggestionItem fl)) → items ≢ [] → 0 < length items
  length-pos_of_ne [] ne = absurd (ne refl)
  length-pos_of_ne (item ∷ items) ne = omega arith

  module _ (u : Unicode) (clock : Clock) (triggered_by : Text) (demand_date : ℕ)
      (loaded : Loaded fl) where
    -- The items of a run, with the countries that it allows and its lead time
    abbrev pub Calculated : Database fl → List (SuggestionItem fl) → Type 0
    Calculated db items =
        (allowed_countries : Option (List Text)) × (lead_time_days : ℤ)
        × (resolve_allowed_restock_regions u db.config.restock_regions ≡ some allowed_countries)
        × (calculated_items fl u clock db.config allowed_countries lead_time_days demand_date loaded
            ≡ some items)

    -- How a run that returns leaves the tables
    abbrev pub Leaves : Database fl → RunOutcome → Database fl → Type 0
    Leaves db (saved id) after =
        (global_snapshot : ConfigSnapshot) × (items : List (SuggestionItem fl)) × Calculated db
          items
        × (items ≢ [])
        × (id ≡ db.next_id)
        × (after
            ≡ persist_suggestion fl global_snapshot triggered_by items
                (archive_active fl clock.now db))
    Leaves db _ after = after ≡ db

    Leaves-of :
        (db after : Database fl) (o : RunOutcome) (done : RunOutcome × Database fl)
        → returned done ≡ returned (o, after)
        → Leaves db done.0 done.1
        → Leaves db o after
    Leaves-of db after o done h l =
        subst (λ (x : RunOutcome × Database fl). Leaves db x.0 x.1) (returned_inj h) l

    finish_run-Leaves :
        (db after : Database fl) (o : RunOutcome) (allowed_countries : Option (List Text))
        (lead_time_days : ℤ) (items : Option (List (SuggestionItem fl)))
        → resolve_allowed_restock_regions u db.config.restock_regions ≡ some allowed_countries
        → calculated_items fl u clock db.config allowed_countries lead_time_days demand_date loaded
          ≡ items
        → finish_run fl u clock triggered_by demand_date db items ≡ returned (o, after)
        → Leaves db o after
    unfolding finish_run
    finish_run-Leaves db after o allowed lead none r e h = cc
    finish_run-Leaves db after o allowed lead (some []) r e h =
        Leaves-of db after o (no_suggestion_needed, db) h refl
    finish_run-Leaves db after o allowed lead (some (item ∷ items)) r e h =
        Leaves-of db after o _ h (
          config_snapshot db.config clock.now (some (clock.isoformat demand_date)),
          item ∷ items,
          (allowed, lead, r, e),
          (λ q. cc),
          refl,
          refl,
        )

    run_with-Leaves :
        (db after : Database fl) (o : RunOutcome) (regions : Option (Option (List Text)))
        (checked : Result ℤ)
        → resolve_allowed_restock_regions u db.config.restock_regions ≡ regions
        → run_with fl u clock triggered_by demand_date loaded db regions checked
          ≡ returned (o, after)
        → Leaves db o after
    unfolding run_with run_checked
    run_with-Leaves db after o none checked r h = cc
    run_with-Leaves db after o (some allowed) (raised e) r h = cc
    run_with-Leaves db after o (some allowed) (returned lead) r h =
        elim (if-cases (is_nil (sku_list_of fl loaded.enabled_skus)) _ _ h) [
          | inl (_, q) ↦ Leaves-of db after o (no_enabled_sku, db) q refl
          | inr (_, q) ↦ finish_run-Leaves db after o allowed lead _ r refl q
        ]

    -- A run that returns either saved one suggestion with items, after archiving every draft, under the
    -- next id, or it left the tables as they were.
    pub run_engine-Leaves :
        (db after : Database fl) (o : RunOutcome)
        → run_engine fl u clock triggered_by demand_date loaded db ≡ returned (o, after)
        → Leaves db o after
    unfolding run_engine
    run_engine-Leaves db after o h =
        elim (if-cases (not db.config.suggestion_generation_enabled) _ _ h) [
          | inl (_, q) ↦ Leaves-of db after o (generation_disabled, db) q refl
          | inr (_, q) ↦ run_with-Leaves db after o _ _ refl q
        ]

    -- No two suggestions have one id, the next id is above all of them, and at most one is a draft.
    abbrev pub IsConsistent : Database fl → Type 0
    IsConsistent db =
        (length (drafts db) ≤ 1)
        × All (λ i. i < db.next_id) (ids db.suggestions)
        × IsDistinct (ids db.suggestions)

    persist-IsConsistent :
        (global_snapshot : ConfigSnapshot) (items : List (SuggestionItem fl)) (db : Database fl)
        → IsConsistent db
        → IsConsistent (
            persist_suggestion fl global_snapshot triggered_by items
              (archive_active fl clock.now db))
    unfolding persist_suggestion archive_active
    persist-IsConsistent global_snapshot items db (one, below, apart) =
        let s = suggestion_of fl db.next_id global_snapshot triggered_by items in
        let archived_all = map (archive fl clock.now) db.suggestions in
        let same : ids (archived_all ++ s ∷ []) ≡ ids db.suggestions ++ db.next_id ∷ [] =
          map-append (λ (s : Suggestion fl). s.id) archived_all (s ∷ [])
          ∙ ap (λ is. is ++ db.next_id ∷ []) (ids-archive clock.now db.suggestions) in
        let single : keep_if (λ (s : Suggestion fl). is_draft s.status) (archived_all ++ s ∷ [])
            ≡ s ∷ [] =
          one_draft clock.now db.suggestions s refl in
        (
          subst (λ ds. length ds ≤ 1) (sym single) (omega arith),
          subst (All (λ i. i < db.next_id + 1)) (sym same) (
              All-snoc (λ i. i < db.next_id + 1) (ids db.suggestions) db.next_id
                (All-map_to (λ i. i < db.next_id) (λ i. i < db.next_id + 1) (ids db.suggestions)
                  (λ i l. omega (arith, l)) below)
                (omega arith)),
          subst IsDistinct (sym same) (
              snoc-IsDistinct db.next_id (ids db.suggestions)
                (not_elem_of_below db.next_id (ids db.suggestions) below) apart),
        )

    -- A run keeps the tables consistent: the ids differ, and at most one suggestion is a draft.
    pub run_engine-IsConsistent :
        (db after : Database fl) (o : RunOutcome)
        → IsConsistent db
        → run_engine fl u clock triggered_by demand_date loaded db ≡ returned (o, after)
        → IsConsistent after
    run_engine-IsConsistent db after o h run = go o (run_engine-Leaves db after o run)
      where
        go : (o : RunOutcome) → Leaves db o after → IsConsistent after
        go (saved id) (snapshot, items, _, ne, same, e) =
            subst IsConsistent (sym e) (persist-IsConsistent snapshot items db h)
        go generation_disabled e = subst IsConsistent (sym e) h
        go no_enabled_sku e = subst IsConsistent (sym e) h
        go no_suggestion_needed e = subst IsConsistent (sym e) h

    -- After a run that saved a suggestion, that suggestion is the only draft, and its count of items is
    -- that of its items, of which there is one at least.
    pub run_engine-draft :
        (db after : Database fl) (id : ℕ)
        → run_engine fl u clock triggered_by demand_date loaded db ≡ returned (saved id, after)
        → (s : Suggestion fl) × (drafts after ≡ s ∷ [])
          × (s.id ≡ id)
          × (0 < s.total_items)
          × (s.total_items ≡ length s.items)
          × Calculated db s.items
    unfolding persist_suggestion archive_active
    run_engine-draft db after id run =
        let (snapshot, items, made, ne, same, e) = run_engine-Leaves db after (saved id) run in
        let s = suggestion_of fl db.next_id snapshot triggered_by items in
        let single = one_draft clock.now db.suggestions s refl in
        (s, ap drafts e ∙ single, sym same, length-pos_of_ne items ne, refl, made)

    saved-turned_off :
        (interrupted : Bool) (before : Database fl) (r : Result (RunOutcome × Database fl))
        (after : Database fl) (id : ℕ)
        → finish_job fl u interrupted before r ≡ (returned (saved id), after)
        → after.config.suggestion_generation_enabled ≡ false
    unfolding finish_job
    saved-turned_off interrupted before (raised e) after id h =
        let ended = ap (λ (x : Result RunOutcome × Database fl). x.0) h in cc
    saved-turned_off true before (returned (saved i, db)) after id h =
        let ended = ap (λ (x : Result RunOutcome × Database fl). x.0) h in cc
    saved-turned_off false before (returned (saved i, db)) after id h =
        ap (λ (x : Result RunOutcome × Database fl). x.1.config.suggestion_generation_enabled)
          (sym h)
    saved-turned_off interrupted before (returned (generation_disabled, db)) after id h =
        let ended = ap (λ (x : Result RunOutcome × Database fl). x.0) h in cc
    saved-turned_off interrupted before (returned (no_enabled_sku, db)) after id h =
        let ended = ap (λ (x : Result RunOutcome × Database fl). x.0) h in cc
    saved-turned_off interrupted before (returned (no_suggestion_needed, db)) after id h =
        let ended = ap (λ (x : Result RunOutcome × Database fl). x.0) h in cc

    -- After a job that returned with a suggestion saved, both of its transactions being committed then, the
    -- next job, whatever its arguments, does nothing.
    pub calc_engine_job-once :
        (clock2 : Clock) (triggered_by2 : Text) (demand_date2 : ℕ) (loaded2 : Loaded fl)
        (interrupted interrupted2 : Bool) (db after : Database fl) (id : ℕ)
        → calc_engine_job fl u clock triggered_by demand_date loaded interrupted db
          ≡ (returned (saved id), after)
        → calc_engine_job fl u clock2 triggered_by2 demand_date2 loaded2 interrupted2 after
          ≡ (returned generation_disabled, after)
    unfolding calc_engine_job finish_job run_engine
    calc_engine_job-once clock2 triggered_by2 demand_date2 loaded2 interrupted interrupted2 db after
          id h =
        let off =
          saved-turned_off interrupted db (run_engine fl u clock triggered_by demand_date loaded db)
            after id h in
        rw (off, finish_job) refl
