-- ===== src/Services/ThirdParty/Steps/Kept.antt =====
-- Every call keeps the tables consistent (backend/app/services/third_party_inventory.py).
use restock_system.Common.Strings.{Unicode}
use restock_system.Common.{List, ℕ, Option, subst, refl}
use restock_system.Services.ThirdParty.Parse.{Cell}
use restock_system.Services.ThirdParty.Import.{save_preview, expire_pending_batch, find_batch}
use restock_system.Services.ThirdParty.{Inventory, expired}
use restock_system.Services.ThirdParty.Steps.{
  Steps, Step, Steps-keep, previewed, previewed-after, confirmed, expired, answered_inj, upserted,
  upserted-after, patched, patched-after, deleted, deleted-after, synced,
}
use restock_system.Services.ThirdParty.Current.{
  sync_import_items_warehouse_id, manual_item, patched_item, number_or,
}
use restock_system.Services.ThirdParty.Steps.Consistent.{
  IsConsistent, same_stock, apply_items-IsConsistent, insert_or_update-IsConsistent,
  find_warehouse-elem, set_current-IsConsistent, others_of-IsConsistent,
}
use restock_system.Services.ThirdParty.Confirm.Applied.{
  confirm_import_batch-applies, on_pending-answered,
}

module _ (u : Unicode) (load_workbook : List ℕ → Option (List (List Cell))) where
  Step-IsConsistent :
      (before after : Inventory)
      → Step u load_workbook before after
      → IsConsistent before
      → IsConsistent after
  unfolding save_preview expire_pending_batch sync_import_items_warehouse_id
  Step-IsConsistent before after (previewed filename content created_by _ _ h) c =
      let (parsed_rows, done) =
        previewed-after u load_workbook filename content created_by before after h in
      subst IsConsistent done (same_stock before _ refl refl refl c)
  Step-IsConsistent before after (confirmed batch_id confirmed_by now _ _ h) c =
      subst IsConsistent (confirm_import_batch-applies batch_id confirmed_by now before h).1
        (apply_items-IsConsistent batch_id confirmed_by now before c)
  Step-IsConsistent before after (expired batch_id _ _ h) c =
      let (pending, found, is_open, answer) =
        on_pending-answered (find_batch batch_id before.batches) _ h in
      subst IsConsistent (answered_inj answer) (same_stock before _ refl refl refl c)
  Step-IsConsistent before after (upserted warehouse_id sku available reserved _ _ h) c =
      let ((warehouse, found), done) =
        upserted-after warehouse_id sku available reserved before after h in
      subst IsConsistent done (
        insert_or_update-IsConsistent
          (manual_item before.next_current_id warehouse_id sku available reserved) before refl
          (find_warehouse-elem warehouse_id before.warehouses found) c)
  Step-IsConsistent before after (patched item_id values _ _ h) c =
      let (item, found, (warehouse, known), free, done) =
        patched-after item_id values before after h in
      subst IsConsistent done (
        set_current-IsConsistent (patched_item values item) before free
          (find_warehouse-elem (number_or values.warehouse_id item.warehouse_id) before.warehouses
            known)
          c)
  Step-IsConsistent before after (deleted item_id _ _ h) c =
      subst IsConsistent (deleted-after item_id before after h)
        (others_of-IsConsistent item_id before c)
  Step-IsConsistent before _ (synced warehouse _) c = same_stock before _ refl refl refl c

  -- Tables that are consistent stay so under any sequence of the calls: no two warehouses have one name,
  -- no two rows of the current stock have one warehouse and sku or one id, and each row has a warehouse
  -- that exists.
  pub Steps-IsConsistent :
      {before after : Inventory}
      → Steps u load_workbook before after
      → IsConsistent before
      → IsConsistent after
  Steps-IsConsistent = Steps-keep u load_workbook IsConsistent Step-IsConsistent
