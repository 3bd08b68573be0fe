-- ===== src/Core/Permissions.antt =====
-- Permission codes and the access to tasks (backend/app/core/permissions.py,
-- backend/app/tasks/access.py). A set is a list of its members.
pub mod Expansion
pub mod Access
use restock_system.Common.{
  List, Text, Option, Dict, codes, map, ◌∷◌, ◌++◌, Bool, get, none, some, [], if◌then◌else◌,
  from_keys, any, elem, for_each, text_eq, add_member,
}
use restock_system.Common.Strings.{split_once}

abbrev pub all_codes : List Text
all_codes =
    codes "home:view"
    ∷ codes "home:refresh"
    ∷ codes "restock:view"
    ∷ codes "restock:operate"
    ∷ codes "restock:export"
    ∷ codes "restock:new_cycle"
    ∷ codes "history:view"
    ∷ codes "history:delete"
    ∷ codes "data_base:view"
    ∷ codes "data_base:edit"
    ∷ codes "data_biz:view"
    ∷ codes "data_biz:edit"
    ∷ codes "sync:view"
    ∷ codes "sync:operate"
    ∷ codes "config:view"
    ∷ codes "config:edit"
    ∷ codes "monitor:view"
    ∷ codes "auth:view"
    ∷ codes "auth:manage"
    ∷ []

abbrev pub view_dependent_actions : List Text
view_dependent_actions =
    codes "edit"
    ∷ codes "operate"
    ∷ codes "manage"
    ∷ codes "delete"
    ∷ codes "export"
    ∷ codes "refresh"
    ∷ codes "new_cycle"
    ∷ []

-- `f"{namespace}:view"`
abbrev pub view_of_namespace : Text → Text
view_of_namespace namespace = namespace ++ b':' ∷ codes "view"

abbrev pub view_of_parts : Option (Text × Text) → Option Text
view_of_parts none = none
view_of_parts (some (namespace, action)) =
    if elem action view_dependent_actions then some (view_of_namespace namespace) else none

-- The view permission that a code implies, if it does
abbrev pub view_code_of : Text → Option Text
view_code_of code = view_of_parts (split_once b':' code)

abbrev pub add_view : List Text → Option Text → List Text → List Text
add_view available none expanded = expanded
add_view available (some view_code) expanded =
    if elem view_code available then add_member view_code expanded else expanded

-- `expand_permission_dependencies`, with `ALL_CODES` where no codes are given as available
unfoldable pub expand_permission_dependencies : List Text → Option (List Text) → List Text
expand_permission_dependencies given available_codes =
    let available : List Text = elim available_codes [
      | none ↦ all_codes
      | some available ↦ available
    ] in
    let expanded = from_keys given in
    for_each (λ code. add_view available (view_code_of code)) expanded expanded

abbrev pub sync_jobs : List Text
sync_jobs =
    codes "sync_product_listing"
    ∷ codes "sync_warehouse"
    ∷ codes "sync_inventory"
    ∷ codes "sync_out_records"
    ∷ codes "sync_order_list"
    ∷ codes "sync_shop"
    ∷ codes "sync_all"
    ∷ codes "daily_archive"
    ∷ codes "retry_failed_api_calls"
    ∷ []

abbrev pub Access : Type 0
Access = Dict Text (List Text)

abbrev pub other_jobs : Access
other_jobs =
    (codes "calc_engine", codes "restock:operate" ∷ [])
    ∷ (codes "refresh_dashboard_snapshot", codes "home:refresh" ∷ [])
    ∷ (codes "order_info_match_apply", codes "data_biz:edit" ∷ [])
    ∷ []

abbrev pub task_view_permissions : Access
task_view_permissions =
    map (λ (job : Text). (job, codes "sync:view" ∷ codes "sync:operate" ∷ [])) sync_jobs
    ++ other_jobs

abbrev pub task_manage_permissions : Access
task_manage_permissions =
    map (λ (job : Text). (job, codes "sync:operate" ∷ [])) sync_jobs ++ other_jobs

unfoldable pub has_any_task_permission : List Text → List Text → Bool
has_any_task_permission permissions required = any (λ code. elem code permissions) required

-- `visible_task_job_names`, over the mapping that it reads
unfoldable pub visible_in : Access → List Text → List Text
visible_in [] permissions = []
visible_in ((job_name, required) ∷ mapping) permissions =
    let rest = visible_in mapping permissions in
    if has_any_task_permission permissions required then job_name ∷ rest else rest

unfoldable pub visible_task_job_names : List Text → List Text
visible_task_job_names permissions = visible_in task_view_permissions permissions

pub data AccessResult : Type 0 where
  granted forbidden : AccessResult

abbrev pub access_of : List Text → Option (List Text) → AccessResult
access_of permissions none = forbidden
access_of permissions (some required) =
    if has_any_task_permission permissions required then granted else forbidden

-- `ensure_task_access`; `Forbidden` is a value.
unfoldable pub ensure_task_access : Text → List Text → Access → AccessResult
ensure_task_access job_name permissions mapping = access_of permissions (get job_name mapping)
