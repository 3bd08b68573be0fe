-- ===== src/Core/PermissionCache/Bounded.antt =====
-- The size of the cache of backend/app/core/permission_cache.py.
use restock_system.Core.PermissionCache.{
  Store, trim, cache_step, cache_get, cache_set, cache_invalidate, CacheOp, do_get, do_set,
  do_invalidate, do_clear, Entry, get_entry,
}
use restock_system.Common.{
  ℕ, length, ◌≤◌, remove, arith, ◌∷◌, [], nat_eq, Option, get, ◌≡◌, some, ◌+◌, Bool-cases, refl,
  ◌==◌, inl, length-append, inr, none,
}

length-trim : (maxsize : ℕ) (store : Store) → length (trim maxsize store) ≤ maxsize
length-trim maxsize [] = omega arith
length-trim maxsize (entry ∷ store) = ground (arith, length-trim maxsize store)

length-remove_le : (k : ℕ) (store : Store) → length (remove k store) ≤ length store
length-remove_le k [] = omega arith
length-remove_le k ((j, v) ∷ store) = ground (arith, length-remove_le k store)

length-remove_found :
    (k : ℕ) (entry : Entry) (store : Store)
    → get k store ≡ some entry
    → length (remove k store) + 1 ≤ length store
length-remove_found k entry [] h = cc
length-remove_found k entry ((j, v) ∷ store) h =
    ground (arith, length-remove_le k store, length-remove_found k entry store, h)

hit :
    {maxsize : ℕ} (user_id version : ℕ) (store : Store) (found : Option Entry)
    → get user_id store ≡ found
    → length store ≤ maxsize
    → length (get_entry user_id version found store).1 ≤ maxsize
hit user_id version store none q h = h
hit {maxsize} user_id version store (some (cached, perms)) q h =
    elim (Bool-cases (cached == version)) [
      | inl e ↦ rw e (
          ground (
            arith,
            length-append (remove user_id store) ((user_id, (cached, perms)) ∷ []),
            length-remove_found user_id (cached, perms) store q,
            h,
          ))
      | inr e ↦ rw e h
    ]

-- Every operation leaves the cache within its size, if it was.
pub cache_step-bounded :
    (maxsize : ℕ) (op : CacheOp) (store : Store)
    → length store ≤ maxsize
    → length (cache_step maxsize op store) ≤ maxsize
unfolding cache_step cache_get cache_set cache_invalidate
cache_step-bounded maxsize (do_get user_id version) store h =
    hit user_id version store (get user_id store) refl h
cache_step-bounded maxsize (do_set user_id version perms) store h = length-trim maxsize _
cache_step-bounded maxsize (do_invalidate user_id) store h =
    ground (arith, length-remove_le user_id store)
cache_step-bounded maxsize do_clear store h = omega arith
