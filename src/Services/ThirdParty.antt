-- ===== src/Services/ThirdParty.antt =====
-- The tables of third-party warehouses and their stock (backend/app/models/third_party_inventory.py).
-- A time is a text; no text is longer than its column.
mod Tests
pub mod Parse
pub mod Import
pub mod Confirm
pub mod Current
pub mod Steps
use restock_system.Common.{ℕ, List, Text, Option, Bool, ltb}
use restock_system.Common.Int.{ℤ, pos, negsuc}

-- `Integer`: the database refuses a number that does not fit four bytes.
unfoldable pub fits_integer : ℤ → Bool
fits_integer (pos n) = ltb n 2147483648
fits_integer (negsuc n) = ltb n 2147483648

pub data BatchStatus : Type 0 where
  pending applied expired : BatchStatus

pub record Warehouse : Type 0 where
  pub id : ℕ
  pub name : Text
  pub country : Option Text

pub record Issue : Type 0 where
  pub row : ℕ
  pub warehouse_name : Option Text
  pub commodity_sku : Option Text
  pub message : Option Text

pub record Summary : Type 0 where
  pub new_warehouses : List Text
  pub unmaintained_warehouses : List Text
  pub issues : List Issue
  pub issue_count : ℕ

pub record Batch : Type 0 where
  pub id : ℕ
  pub filename : Text
  pub status : BatchStatus
  pub row_count : ℕ
  pub valid_row_count : ℕ
  pub skipped_row_count : ℕ
  pub new_warehouse_count : ℕ
  pub created_by : Option Text
  pub confirmed_by : Option Text
  pub confirmed_at : Option Text
  pub summary : Summary

pub record ImportItem : Type 0 where
  pub id : ℕ
  pub batch_id : ℕ
  pub warehouse_name_raw : Text
  pub warehouse_id : Option ℕ
  pub commodity_sku : Option Text
  pub available : Option ℤ
  pub reserved : Option ℤ
  pub source_row_no : ℕ
  pub error_message : Option Text

pub data LastOperation : Type 0 where
  import_operation manual_operation : LastOperation

pub record CurrentItem : Type 0 where
  pub id : ℕ
  pub warehouse_id : ℕ
  pub commodity_sku : Text
  pub available : ℤ
  pub reserved : ℤ
  pub source_batch_id : Option ℕ
  pub last_operation : LastOperation

-- The four tables, and the next value of the sequence behind the ids of each
pub record Inventory : Type 0 where
  pub warehouses : List Warehouse
  pub next_warehouse_id : ℕ
  pub batches : List Batch
  pub next_batch_id : ℕ
  pub items : List ImportItem
  pub next_item_id : ℕ
  pub current : List CurrentItem
  pub next_current_id : ℕ
