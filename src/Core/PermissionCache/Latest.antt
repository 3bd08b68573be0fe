-- ===== src/Core/PermissionCache/Latest.antt =====
-- The cache of backend/app/core/permission_cache.py beside a plain map from users to what was stored.
use restock_system.Core.PermissionCache.{
  Store, CacheOp, do_get, Entry, do_set, do_invalidate, do_clear, get_entry, cache_step, cache_get,
  trim, cache_set, cache_invalidate,
}
use restock_system.Common.{
  ℕ, Option, if◌then◌else◌, get, ◌==◌, ◌≡◌, some, nat_eq, none, remove, ◌∷◌, [], arith, nat_beq_iff,
  refl, All, put, Bool-cases, if-cases, List, ==_refl, for_each, Text, inl, ltb, subst, All-snoc,
  inr, length, ◌∙◌, All-remove,
}

-- What a user should have: a function that every operation changes in one place.
abbrev pub Latest : Type 0
Latest = ℕ → Option Entry

abbrev pub latest_step : CacheOp → Latest → Latest
latest_step (do_get user_id version) spec = spec
latest_step (do_set user_id version perms) spec =
    λ u. if user_id == u then some (version, perms) else spec u
latest_step (do_invalidate user_id) spec = λ u. if user_id == u then none else spec u
latest_step do_clear spec = λ u. none

-- The cache holds nothing else than the specification does.
abbrev pub IsSound : Store → Latest → Type 0
IsSound store spec = All (λ (e : ℕ × Entry). spec e.0 ≡ some e.1) store

trim-All {κ} :
    (P : ℕ × Entry → Type κ) (maxsize : ℕ) (store : Store)
    → All P store
    → All P (trim maxsize store)
trim-All P maxsize [] h = tt
trim-All P maxsize (entry ∷ store) h = elim (Bool-cases (ltb maxsize (length (entry ∷ store)))) [
  | inl q ↦ rw q (trim-All P maxsize store h.1)
  | inr q ↦ rw q h
]

remove-put : (k : ℕ) (v : Entry) (store : Store) → remove k (put k v store) ≡ remove k store
remove-put k v [] = ground (arith, ==_refl k)
remove-put k v ((j, w) ∷ store) = ground (arith, remove-put k v store)

-- Away from a user whose entry is removed, a change of that user in the specification is not seen.
remove-IsSound :
    (k : ℕ) (o : Option Entry) (store : Store) (spec : Latest)
    → IsSound store spec
    → IsSound (remove k store) (λ u. if k == u then o else spec u)
remove-IsSound k o [] spec h = tt
remove-IsSound k o ((j, w) ∷ store) spec h = elim (Bool-cases (j == k)) [
  | inl q ↦ rw q (remove-IsSound k o store spec h.1)
  | inr q ↦
      rw q (
        ground (arith, h.0, q, nat_beq_iff j k, nat_beq_iff k j),
        remove-IsSound k o store spec h.1,
      )
]

get-IsSound :
    (store : Store) (spec : Latest) (u : ℕ) (entry : Entry)
    → IsSound store spec
    → get u store ≡ some entry
    → spec u ≡ some entry
get-IsSound [] spec u entry h q = cc
get-IsSound ((j, w) ∷ store) spec u entry h q = elim (if-cases (j == u) (some w) (get u store) q) [
  | inl (same, found) ↦ subst (λ x. spec x ≡ some entry) ((nat_beq_iff j u).0 same) (h.0 ∙ found)
  | inr (_, later) ↦ get-IsSound store spec u entry h.1 later
]

hit-IsSound :
    (u v : ℕ) (store : Store) (spec : Latest) (found : Option Entry)
    → IsSound store spec
    → get u store ≡ found
    → IsSound (get_entry u v found store).1 spec
hit-IsSound u v store spec none h q = h
hit-IsSound u v store spec (some (cached, perms)) h q = elim (Bool-cases (cached == v)) [
  | inl e ↦ rw e (
      All-snoc (λ (e : ℕ × Entry). spec e.0 ≡ some e.1) (remove u store) (u, (cached, perms))
        (All-remove (λ (e : ℕ × Entry). spec e.0 ≡ some e.1) u store h)
        (get-IsSound store spec u (cached, perms) h q))
  | inr e ↦ rw e h
]

cache_step-IsSound :
    (maxsize : ℕ) (op : CacheOp) (store : Store) (spec : Latest)
    → IsSound store spec
    → IsSound (cache_step maxsize op store) (latest_step op spec)
unfolding cache_step cache_get cache_set cache_invalidate
cache_step-IsSound maxsize (do_get u v) store spec h =
    hit-IsSound u v store spec (get u store) h refl
cache_step-IsSound maxsize (do_set u v perms) store spec h =
    let after : Latest = λ w. if u == w then some (v, perms) else spec w in
    trim-All (λ (e : ℕ × Entry). after e.0 ≡ some e.1) maxsize _
      (All-snoc (λ (e : ℕ × Entry). after e.0 ≡ some e.1) (remove u (put u (v, perms) store))
        (u, (v, perms))
        (rw (remove-put u (v, perms) store) (remove-IsSound u (some (v, perms)) store spec h))
        (rw (==_refl u) refl))
cache_step-IsSound maxsize (do_invalidate u) store spec h = remove-IsSound u none store spec h
cache_step-IsSound maxsize do_clear store spec h = tt

unfoldable pub run_cache : ℕ → List CacheOp → Store
run_cache maxsize ops = for_each (cache_step maxsize) ops []

unfoldable pub run_latest : List CacheOp → Latest
run_latest ops = for_each latest_step ops (λ u. none)

run-IsSound :
    (maxsize : ℕ) (ops : List CacheOp) (store : Store) (spec : Latest)
    → IsSound store spec
    → IsSound (for_each (cache_step maxsize) ops store) (for_each latest_step ops spec)
run-IsSound maxsize [] store spec h = h
run-IsSound maxsize (op ∷ ops) store spec h =
    run-IsSound maxsize ops _ _ (cache_step-IsSound maxsize op store spec h)

answer :
    (u v : ℕ) (perms : List Text) (store : Store) (found : Option Entry)
    → (get_entry u v found store).0 ≡ some perms
    → found ≡ some (v, perms)
answer u v perms store none h = cc
answer u v perms store (some (cached, kept)) h = ground (arith, nat_beq_iff cached v)

-- Whatever operations ran on an empty cache of whatever size, what it then answers for a user and a
-- version is what was last stored for that user, under that version, and not invalidated since.
pub cache_get-latest :
    (maxsize : ℕ) (ops : List CacheOp) (u v : ℕ) (perms : List Text)
    → (cache_get u v (run_cache maxsize ops)).0 ≡ some perms
    → run_latest ops u ≡ some (v, perms)
unfolding cache_get run_cache run_latest
cache_get-latest maxsize ops u v perms h =
    let store = for_each (cache_step maxsize) ops [] in
    get-IsSound store (for_each latest_step ops (λ u. none)) u (v, perms)
      (run-IsSound maxsize ops [] (λ u. none) tt) (answer u v perms store (get u store) h)
