-- ===== src/Core/PermissionCache.antt =====
-- The cache of permissions (backend/app/core/permission_cache.py): an ordered dictionary from users to
-- a version and permissions, the least recently used first.
pub mod Bounded
pub mod Latest
use restock_system.Common.{
  ℕ, Dict, List, remove, Option, [], ◌∷◌, Text, ◌++◌, if◌then◌else◌, nat_eq, get, ltb, put, some,
  not, length, ◌==◌, none,
}

abbrev pub Entry : Type 0
Entry = ℕ × List Text

abbrev pub Store : Type 0
Store = Dict ℕ Entry

-- `store.move_to_end(k)` for a key that has this value
abbrev pub move_to_end : ℕ → Entry → Store → Store
move_to_end user_id entry store = remove user_id store ++ (user_id, entry) ∷ []

-- `get`: what it returns, and the cache after it
abbrev pub get_entry : ℕ → ℕ → Option Entry → Store → Option (List Text) × Store
get_entry user_id version none store = (none, store)
get_entry user_id version (some (cached_version, perms)) store =
    if not (cached_version == version)
    then (none, store)
    else (some perms, move_to_end user_id (cached_version, perms) store)

unfoldable pub cache_get : ℕ → ℕ → Store → Option (List Text) × Store
cache_get user_id version store = get_entry user_id version (get user_id store) store

-- `while len(store) > maxsize: store.popitem(last=False)`
abbrev pub trim : ℕ → Store → Store
trim maxsize [] = []
trim maxsize (entry ∷ store) =
    let rest = trim maxsize store in
    if ltb maxsize (length (entry ∷ store)) then rest else entry ∷ store

unfoldable pub cache_set : ℕ → ℕ → ℕ → List Text → Store → Store
cache_set maxsize user_id version perms store =
    trim maxsize (move_to_end user_id (version, perms) (put user_id (version, perms) store))

unfoldable pub cache_invalidate : ℕ → Store → Store
cache_invalidate user_id store = remove user_id store

pub data CacheOp : Type 0 where
  do_get : ℕ → ℕ → CacheOp
  do_set : ℕ → ℕ → List Text → CacheOp
  do_invalidate : ℕ → CacheOp
  do_clear : CacheOp

-- The methods of the class as steps on the cache
unfoldable pub cache_step : ℕ → CacheOp → Store → Store
cache_step maxsize (do_get user_id version) store = (cache_get user_id version store).1
cache_step maxsize (do_set user_id version perms) store =
    cache_set maxsize user_id version perms store
cache_step maxsize (do_invalidate user_id) store = cache_invalidate user_id store
cache_step maxsize do_clear store = []
