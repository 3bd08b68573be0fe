-- ===== src/Core/RateLimit/Window.antt =====
-- What is on record of a client stays within its limit (backend/app/core/rate_limit.py).
use restock_system.Core.RateLimit.{
  RateLimit, Tracked, keep_active, ensure_capacity, active_at, forget, prune_client, prune_expired,
  admit, dispatch, record_request, ClientRequest, is_exempt, get_client_ip, prune_entries,
  evicted_clients,
}
use restock_system.Common.{
  All, ℕ, List, Text, length, Bool, Dict, for_each-keeps, ◌≤◌, keep_if, values, arith, remove,
  for_each, ◌∷◌, Bool-cases, All-values-put, ltb, [], ◌==◌, ◌+◌, inl, inr, text_eq, elem, get_or,
  keys, ◌≡◌, ◌<◌, leb, false, get, subst, elem-keys-remove, none, length-append, sym, get-remove,
  ==_refl, get_or-put_same, refl, get-none_of_absent, All-values-get_or,
}
use restock_system.Common.Strings.{Unicode}

module _ (limit : RateLimit) where
  -- Every client has at most the allowed number of requests on record.
  abbrev pub IsLimited : Tracked → Type 0
  IsLimited s = All (λ (ts : List ℕ). length ts ≤ limit.max_requests) (values s.requests)

  length-keep_if : (p : ℕ → Bool) (xs : List ℕ) → length (keep_if p xs) ≤ length xs
  length-keep_if p [] = omega arith
  length-keep_if p (x ∷ xs) = ground (arith, length-keep_if p xs)

  remove-values {κ} :
      (P : List ℕ → Type κ) (k : Text) (d : Dict Text (List ℕ))
      → All P (values d)
      → All P (values (remove k d))
  remove-values P k [] h = tt
  remove-values P k ((j, v) ∷ d) h = elim (Bool-cases (j == k)) [
    | inl q ↦ rw q (remove-values P k d h.1)
    | inr q ↦ rw q (h.0, remove-values P k d h.1)
  ]

  keep_active-IsLimited :
      (client_ip : Text) (active : List ℕ) (s : Tracked)
      → length active ≤ limit.max_requests
      → IsLimited s
      → IsLimited (keep_active limit client_ip active s)
  keep_active-IsLimited client_ip [] s few h = remove-values _ client_ip s.requests h
  keep_active-IsLimited client_ip (t ∷ active) s few h =
      All-values-put _ client_ip (t ∷ active) s.requests few h

  forget_all-IsLimited :
      (clients : List Text) (s : Tracked) → IsLimited s → IsLimited (for_each forget clients s)
  forget_all-IsLimited clients s h =
      for_each-keeps IsLimited forget clients s (λ c s k. remove-values _ c s.requests k) h

  prune_client-IsLimited :
      (client_ip : Text) (active : List ℕ) (s : Tracked) (expired : List Text)
      → length active ≤ limit.max_requests
      → IsLimited s
      → IsLimited (prune_client limit client_ip active (s, expired)).0
  prune_client-IsLimited client_ip [] s expired few h = h
  prune_client-IsLimited client_ip (t ∷ active) s expired few h =
      keep_active-IsLimited client_ip (t ∷ active) s few h

  prune_entries-IsLimited :
      (now : ℕ) (entries : Dict Text (List ℕ)) (s : Tracked × List Text)
      → All (λ (ts : List ℕ). length ts ≤ limit.max_requests) (values entries)
      → IsLimited s.0
      → IsLimited (prune_entries limit now entries s).0
  prune_entries-IsLimited now [] s few h = h
  prune_entries-IsLimited now ((k, ts) ∷ entries) s few h =
      prune_entries-IsLimited now entries _ few.1 (
        prune_client-IsLimited k (active_at limit now ts) s.0 s.1
          (omega (arith, few.0, length-keep_if (λ t. ltb now (t + limit.window_seconds)) ts)) h)

  prune_expired-IsLimited :
      (now : ℕ) (s : Tracked) → IsLimited s → IsLimited (prune_expired limit now s)
  unfolding prune_expired
  prune_expired-IsLimited now s h =
      let pruned = prune_entries limit now s.requests (s, []) in
      forget_all-IsLimited pruned.1 pruned.0 (prune_entries-IsLimited now s.requests (s, []) h h)

  ensure_capacity-IsLimited :
      (slots : ℕ) (s : Tracked) → IsLimited s → IsLimited (ensure_capacity limit slots s)
  unfolding ensure_capacity
  ensure_capacity-IsLimited slots s h =
      for_each-keeps IsLimited (λ (entry : Text × ℕ). forget entry.0)
        (evicted_clients limit slots s) s (λ entry s k. remove-values _ entry.0 s.requests k) h

  -- A client that is not on record is not on record after others are forgotten.
  ensure_capacity-absent :
      (slots : ℕ) (client_ip : Text) (s : Tracked)
      → elem client_ip (keys s.requests) ≡ false
      → elem client_ip (keys (ensure_capacity limit slots s).requests) ≡ false
  unfolding ensure_capacity
  ensure_capacity-absent slots client_ip s h =
      for_each-keeps (λ (s : Tracked). elem client_ip (keys s.requests) ≡ false)
        (λ (entry : Text × ℕ). forget entry.0) (evicted_clients limit slots s) s
        (λ entry s k. ground (arith, elem-keys-remove entry.0 client_ip s.requests, k)) h

  -- What is on record of a client once its active requests are kept
  get-keep_active :
      (client_ip : Text) (active : List ℕ) (s : Tracked)
      → get_or client_ip (keep_active limit client_ip active s).requests [] ≡ active
  get-keep_active client_ip [] s =
      let gone : get client_ip (remove client_ip s.requests) ≡ none =
        ground (arith, get-remove client_ip client_ip s.requests, ==_refl client_ip) in
      rw (gone, get_or) refl
  get-keep_active client_ip (t ∷ active) s = get_or-put_same client_ip (t ∷ active) [] s.requests

  get_or-absent :
      (client_ip : Text) (d : Dict Text (List ℕ))
      → elem client_ip (keys d) ≡ false
      → get_or client_ip d [] ≡ []
  get_or-absent client_ip d h = rw (get-none_of_absent client_ip d h, get_or) refl

  record_request-IsLimited :
      (client_ip : Text) (now : ℕ) (s : Tracked)
      → length (get_or client_ip s.requests []) < limit.max_requests
      → IsLimited s
      → IsLimited (record_request limit client_ip now s)
  record_request-IsLimited client_ip now s few h =
      All-values-put _ client_ip _ s.requests
        (omega (arith, few, length-append (get_or client_ip s.requests []) (now ∷ []))) h

  admit-IsLimited :
      (client_ip : Text) (now : ℕ) (s : Tracked)
      → IsLimited s
      → IsLimited (admit limit client_ip now s).1
  unfolding admit
  admit-IsLimited client_ip now s h =
      let active = active_at limit now (get_or client_ip s.requests []) in
      let kept = keep_active limit client_ip active s in
      let kept_few : IsLimited kept =
        keep_active-IsLimited client_ip active s
          (omega (
            arith,
            length-keep_if (λ t. ltb now (t + limit.window_seconds))
                (get_or client_ip s.requests []),
            All-values-get_or (λ (ts : List ℕ). length ts ≤ limit.max_requests) client_ip []
                s.requests (omega arith) h,
          ))
          h in
      elim (Bool-cases (leb limit.max_requests (length active))) [
        | inl q ↦ rw q kept_few
        | inr q ↦ elim (Bool-cases (elem client_ip (keys kept.requests))) [
          | inl there ↦
              rw (q, there)
                (record_request-IsLimited client_ip now kept
                  (subst (λ ts. length ts < limit.max_requests)
                    (sym (get-keep_active client_ip active s)) (ground arith))
                  kept_few)
          | inr absent ↦
              rw (q, absent)
                (record_request-IsLimited client_ip now (ensure_capacity limit 1 kept)
                  (subst (λ ts. length ts < limit.max_requests)
                    (sym
                      (get_or-absent client_ip _ (ensure_capacity-absent 1 client_ip kept absent)))
                    (ground arith))
                  (ensure_capacity-IsLimited 1 kept kept_few))
        ]
      ]

  -- Whatever request comes, afterwards no client has more on record than it may make in a window, if
  -- none had before.
  pub dispatch-IsLimited :
      (u : Unicode) (is_trusted : Text → Bool) (request : ClientRequest) (now : ℕ) (s : Tracked)
      → IsLimited s
      → IsLimited (dispatch limit u is_trusted request now s).1
  unfolding dispatch
  dispatch-IsLimited u is_trusted request now s h = elim (Bool-cases (is_exempt request.path)) [
    | inl q ↦ rw q h
    | inr q ↦ elim (Bool-cases (leb s.next_prune_at now)) [
      | inl due ↦
          rw (q, due)
            (admit-IsLimited (get_client_ip u is_trusted request) now _
              (prune_expired-IsLimited now s h))
      | inr later ↦ rw (q, later) (admit-IsLimited (get_client_ip u is_trusted request) now s h)
    ]
  ]
