-- ===== src/Services/ThirdParty/Steps/Batches.antt =====
-- A batch is confirmed or cancelled at most once (`confirm_import_batch`, `expire_pending_batch`).
use restock_system.Common.{
  ℕ, List, ◌≡◌, some, ◌==◌, false, ◌++◌, true, Bool-cases, ◌∷◌, inl, arith, sym, inr, nat_beq_iff,
  ◌∙◌, [], ap, nat_eq, if◌then◌else◌, some_inj, refl, Option, subst,
}
use restock_system.Services.ThirdParty.{Batch, Inventory, expired}
use restock_system.Services.ThirdParty.Import.{
  find_batch, is_pending_batch, set_batch, save_preview, expire_pending_batch, expired_batch,
}
use restock_system.Common.Strings.{Unicode}
use restock_system.Services.ThirdParty.Parse.{Cell}
use restock_system.Services.ThirdParty.Steps.{
  Steps, Steps-keep, Step, previewed, previewed-after, confirmed, expired, answered_inj, upserted,
  upserted-after, patched, patched-after, deleted, deleted-after, synced,
}
use restock_system.Services.ThirdParty.Confirm.{confirm_import_batch, apply_items, applied_batch}
use restock_system.Services.ThirdParty.Current.{
  upsert_current_item, insert_or_update, patch_current_item, save_current, delete_current_item,
  sync_import_items_warehouse_id,
}
use restock_system.Services.ThirdParty.Confirm.Applied.{
  on_pending-answered, confirm_import_batch-applies,
}

-- The batch with an id, which is not pending
abbrev pub IsClosed : ℕ → Batch → Inventory → Type 0
IsClosed i batch inventory =
    (find_batch i inventory.batches ≡ some batch) × (is_pending_batch batch.status ≡ false)

find_batch-append :
    (i : ℕ) (batches more : List Batch) {batch : Batch}
    → find_batch i batches ≡ some batch
    → find_batch i (batches ++ more) ≡ some batch
find_batch-append i [] more h = cc
find_batch-append i (b ∷ batches) more {batch} h =
    ground (arith, find_batch-append i batches more {batch = batch}, h)

find_batch-set_batch :
    (i j : ℕ) (change : Batch → Batch) (batches : List Batch)
    → ((b : Batch) → (change b).id ≡ b.id)
    → (j == i) ≡ false
    → find_batch i (set_batch j change batches) ≡ find_batch i batches
find_batch-set_batch i j change [] same ne = refl
find_batch-set_batch i j change (b ∷ batches) same ne = elim (Bool-cases (b.id == j)) [
  | inl q ↦
      rw (q, same b)
        (ground (
          arith,
          ne,
          q,
          nat_beq_iff b.id i,
          nat_beq_iff b.id j,
          nat_beq_iff j i,
          find_batch-set_batch i j change batches same ne,
        ))
  | inr q ↦
      rw q (
        ap (λ o. if b.id == i then some b else o) (find_batch-set_batch i j change batches same ne))
]

-- An update of a pending batch is one of another.
other_batch :
    (i j : ℕ) (inventory : Inventory) {batch pending : Batch}
    → is_pending_batch batch.status ≡ false
    → find_batch i inventory.batches ≡ some batch
    → find_batch j inventory.batches ≡ some pending
    → is_pending_batch pending.status ≡ true
    → (j == i) ≡ false
other_batch i j inventory {batch} {pending} closed found other open_ = elim (Bool-cases (j == i)) [
  | inl q ↦
      let same : some pending ≡ some batch =
        sym other ∙ ap (λ k. find_batch k inventory.batches) ((nat_beq_iff j i).0 q) ∙ found in
      let equal = some_inj same in
      let status = ap (λ (b : Batch). is_pending_batch b.status) equal in cc
  | inr q ↦ q
]

set_batch-IsClosed :
    (i j : ℕ) (change : Batch → Batch) (inventory : Inventory) {batch pending : Batch}
    → ((b : Batch) → (change b).id ≡ b.id)
    → IsClosed i batch inventory
    → find_batch j inventory.batches ≡ some pending
    → is_pending_batch pending.status ≡ true
    → find_batch i (set_batch j change inventory.batches) ≡ some batch
set_batch-IsClosed i j change inventory same closed other open_ =
    find_batch-set_batch i j change inventory.batches same
      (other_batch i j inventory closed.1 closed.0 other open_)
    ∙ closed.0

module _ (u : Unicode) (load_workbook : List ℕ → Option (List (List Cell))) where
  pub Step-IsClosed :
      (i : ℕ) {batch : Batch} (before after : Inventory)
      → Step u load_workbook before after
      → IsClosed i batch before
      → IsClosed i batch after
  unfolding save_preview confirm_import_batch apply_items expire_pending_batch upsert_current_item
      insert_or_update patch_current_item save_current delete_current_item
      sync_import_items_warehouse_id
  Step-IsClosed i before after (previewed filename content created_by _ _ h) closed =
      let (parsed_rows, done) =
        previewed-after u load_workbook filename content created_by before after h in
      subst (IsClosed i _) done (find_batch-append i before.batches _ closed.0, closed.1)
  Step-IsClosed i before after (confirmed batch_id confirmed_by now _ _ h) closed =
      let (pending, found, is_open, answer) =
        on_pending-answered (find_batch batch_id before.batches) _ h in
      let (valid, done) = confirm_import_batch-applies batch_id confirmed_by now before h in
      subst (IsClosed i _) done (
        set_batch-IsClosed i batch_id (applied_batch confirmed_by now) before (λ b. refl) closed
            found is_open,
        closed.1,
      )
  Step-IsClosed i before after (expired batch_id _ _ h) closed =
      let (pending, found, is_open, answer) =
        on_pending-answered (find_batch batch_id before.batches) _ h in
      subst (IsClosed i _) (answered_inj answer) (
        set_batch-IsClosed i batch_id expired_batch before (λ b. refl) closed found is_open,
        closed.1,
      )
  Step-IsClosed i before after (upserted warehouse_id sku available reserved _ _ h) closed =
      subst (IsClosed i _) (upserted-after warehouse_id sku available reserved before after h).1
        closed
  Step-IsClosed i before after (patched item_id values _ _ h) closed =
      let (item, found, known, free, done) = patched-after item_id values before after h in
      subst (IsClosed i _) done closed
  Step-IsClosed i before after (deleted item_id _ _ h) closed =
      subst (IsClosed i _) (deleted-after item_id before after h) closed
  Step-IsClosed i before _ (synced warehouse _) closed = closed

  -- A batch that is not pending, with all its columns, is the same after any sequence of calls: it is
  -- confirmed or cancelled at most once.
  pub Steps-IsClosed :
      (i : ℕ) (batch : Batch) {before after : Inventory}
      → Steps u load_workbook before after
      → IsClosed i batch before
      → IsClosed i batch after
  Steps-IsClosed i batch = Steps-keep u load_workbook (IsClosed i batch) (Step-IsClosed i)
