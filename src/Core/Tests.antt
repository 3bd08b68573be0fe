-- ===== src/Core/Tests.antt =====
-- The theorems on country codes at concrete inputs. Characters are those of ASCII.
use restock_system.Common.Strings.{Unicode, strip, split_once}
use restock_system.Common.{
  ◌==◌, Option, elem, leb, List, ◌≡◌, some, codes, ◌&&◌, Text, ◌∷◌, ◌||◌, none, [], if◌then◌else◌,
  false, refl, ◌-◌, nat_eq, text_eq, true, arith,
}
use restock_system.Core.Countries.{
  normalize_country_list_for_eu_members, apply_eu_mapping, eu_members_from, trimmed_upper,
  is_two_letters, resolve_alias, normalize_observed_country_code, is_valid_observed_country_code,
  resolve_allowed_restock_regions, is_reportable_country_code, normalize_restock_regions,
  restock_regions_from, normalize_reportable_country_code,
}
use restock_system.Core.Countries.Members.{apply_eu_mapping-not_member}
use restock_system.Core.Permissions.{
  expand_permission_dependencies, visible_task_job_names, view_code_of, ensure_task_access,
  task_view_permissions,
}
use restock_system.Core.PermissionCache.{CacheOp, cache_get, do_set, cache_step, do_get, cache_set}
use restock_system.Core.PermissionCache.Latest.{run_latest, run_cache, cache_get-latest}
use restock_system.Core.RateLimit.{
  RateLimit, Tracked, ClientRequest, dispatch, is_exempt, get_client_ip, admit, too_many_requests,
}
use restock_system.Core.RateLimit.Window.{IsLimited, dispatch-IsLimited}
use restock_system.Core.Permissions.Expansion.{expand_permission_dependencies-closed}
use restock_system.Core.Permissions.Access.{is_granted, visible_task_job_names-ensure}

abbrev ascii : Unicode
ascii = record {
  is_space = λ c. c == b' ';
  is_alpha = λ c. (leb b'A' c && leb c b'Z') || (leb b'a' c && leb c b'z');
  upper = λ c. (if leb b'a' c && leb c b'z' then c - 32 else c) ∷ [];
  digit_value = λ c. if leb b'0' c && leb c b'9' then some (c - b'0') else none;
}

abbrev configured : Option (List (Option Text))
configured = some (some (codes " de") ∷ none ∷ some (codes "uk") ∷ some (codes "GB") ∷ [])

members_run :
    normalize_country_list_for_eu_members ascii configured ≡ some (codes "DE" ∷ codes "GB" ∷ [])
unfolding normalize_country_list_for_eu_members eu_members_from trimmed_upper strip is_two_letters
    resolve_alias
members_run = refl

refused_run : normalize_country_list_for_eu_members ascii (some (some (codes "zz") ∷ [])) ≡ none
unfolding normalize_country_list_for_eu_members eu_members_from trimmed_upper strip is_two_letters
    resolve_alias
refused_run = refl

mapping_run :
    apply_eu_mapping ascii (some (codes "uk ")) (codes "DE" ∷ codes "GB" ∷ []) ≡ some (codes "EU")
unfolding apply_eu_mapping normalize_observed_country_code is_valid_observed_country_code
    is_two_letters trimmed_upper strip resolve_alias
mapping_run = refl

apply_eu_mapping-not_member_example : elem (codes "EU") (codes "DE" ∷ codes "GB" ∷ []) ≡ false
apply_eu_mapping-not_member_example =
    apply_eu_mapping-not_member ascii configured (some (codes "uk ")) members_run mapping_run

regions_run :
    resolve_allowed_restock_regions ascii
      (some (some (codes "us") ∷ some (codes "ZZ") ∷ some (codes "US ") ∷ []))
    ≡ some (some (codes "US" ∷ []))
unfolding resolve_allowed_restock_regions normalize_restock_regions restock_regions_from
    trimmed_upper strip normalize_observed_country_code is_valid_observed_country_code
    is_two_letters resolve_alias is_reportable_country_code normalize_reportable_country_code
regions_run = refl

abbrev given_codes : List Text
given_codes = codes "sync:operate" ∷ codes "home:refresh" ∷ codes "custom" ∷ []

expanded_run : elem (codes "sync:operate") (expand_permission_dependencies given_codes none) ≡ true
unfolding expand_permission_dependencies split_once
expanded_run = refl

implied_run : view_code_of (codes "sync:operate") ≡ some (codes "sync:view")
unfolding split_once
implied_run = refl

expand_permission_dependencies-closed_example :
    elem (codes "sync:view") (expand_permission_dependencies given_codes none) ≡ true
expand_permission_dependencies-closed_example =
    expand_permission_dependencies-closed given_codes none (codes "sync:operate")
      (codes "sync:view") expanded_run implied_run refl

visible_task_job_names-ensure_example :
    elem (codes "calc_engine") (visible_task_job_names (codes "restock:operate" ∷ []))
    ≡ is_granted (
        ensure_task_access
          (codes "calc_engine")
          (codes "restock:operate" ∷ [])
          task_view_permissions)
visible_task_job_names-ensure_example =
    visible_task_job_names-ensure (codes "restock:operate" ∷ []) (codes "calc_engine")

abbrev cache_ops : List CacheOp
cache_ops = do_set 1 4 (codes "home:view" ∷ []) ∷ do_set 2 1 [] ∷ do_get 1 4 ∷ do_set 3 1 [] ∷ []

cache_run : (cache_get 1 4 (run_cache 2 cache_ops)).0 ≡ some (codes "home:view" ∷ [])
unfolding cache_get run_cache cache_step cache_set
cache_run = refl

cache_get-latest_example : run_latest cache_ops 1 ≡ some (4, codes "home:view" ∷ [])
cache_get-latest_example = cache_get-latest 2 cache_ops 1 4 (codes "home:view" ∷ []) cache_run

abbrev two_per_minute : RateLimit
two_per_minute = record {
  max_requests = 2;
  window_seconds = 60;
  max_tracked_clients = 1;
  prune_interval_seconds = 60;
}

abbrev tracked : Tracked
tracked = record {
  requests = (codes "1.2.3.4", 100 ∷ 110 ∷ []) ∷ [];
  last_seen = (codes "1.2.3.4", 110) ∷ [];
  next_prune_at = 150;
}

abbrev request : ClientRequest
request = record {
  path = codes "/api";
  client_host = some (codes "1.2.3.4");
  forwarded_for = [];
  real_ip = [];
}

-- A third request within the window is refused.
third_run :
    (dispatch two_per_minute ascii (λ host. false) request 120 tracked).0 ≡ too_many_requests
unfolding dispatch is_exempt get_client_ip admit
third_run = refl

dispatch-IsLimited_example :
    IsLimited two_per_minute (dispatch two_per_minute ascii (λ host. false) request 120 tracked).1
dispatch-IsLimited_example =
    dispatch-IsLimited two_per_minute ascii (λ host. false) request 120 tracked (omega arith, tt)
