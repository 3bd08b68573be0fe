-- ===== src/Core/RateLimit.antt =====
-- The rate limit per client (backend/app/core/rate_limit.py). Times are counted in ticks of the clock;
-- a time minus the window is compared by adding the window on the other side. Reading an address is
-- the standard library's, and a parameter.
pub mod Window
use Prim.Native.Nat.{max}
use restock_system.Common.{
  ℕ, Option, Dict, Text, List, codes, Bool, keep_if, remove, for_each, length, put, get_or, ◌∷◌,
  some, [], any, ltb, ◌+◌, if◌then◌else◌, none, ◌-◌, ◌++◌, leb, text_eq, not, take, elem, is_nil,
  sorted, keys, ◌==◌, nat_eq,
}
use restock_system.Common.Strings.{Unicode, starts_with, strip, split_once}

pub record RateLimit : Type 0 where
  pub max_requests : ℕ
  pub window_seconds : ℕ
  pub max_tracked_clients : ℕ
  pub prune_interval_seconds : ℕ

-- `prune_interval_seconds or max(window_seconds, 60)`
unfoldable pub prune_interval : Option ℕ → ℕ → ℕ
prune_interval none window_seconds = max window_seconds 60
prune_interval (some seconds) window_seconds =
    if seconds == 0 then max window_seconds 60 else seconds

pub record Tracked : Type 0 where
  pub requests : Dict Text (List ℕ)
  pub last_seen : Dict Text ℕ
  pub next_prune_at : ℕ

-- What of a request the middleware reads
pub record ClientRequest : Type 0 where
  pub path : Text
  pub client_host : Option Text
  pub forwarded_for : Text
  pub real_ip : Text

pub data Answer : Type 0 where
  passed_on too_many_requests : Answer

abbrev pub exempt_paths : List Text
exempt_paths = codes "/healthz" ∷ codes "/readyz" ∷ []

unfoldable pub is_exempt : Text → Bool
is_exempt path = any (λ prefix. starts_with prefix path) exempt_paths

-- `xs[-1]`, of a list that has a last member
abbrev pub last_of : ℕ → List ℕ → ℕ
last_of x [] = x
last_of x (y ∷ ys) = last_of y ys

-- `forwarded.split(",", 1)[0]`
abbrev pub first_piece : Text → Option (Text × Text) → Text
first_piece whole none = whole
first_piece whole (some (first, rest)) = first

-- `_get_client_ip`, where `is_trusted` says whether an address is in one of the trusted networks
unfoldable pub get_client_ip : Unicode → (Text → Bool) → ClientRequest → Text
get_client_ip u is_trusted request =
    let peer_ip : Text = elim request.client_host [ none ↦ codes "unknown" | some host ↦ host ] in
    let forwarded = strip u request.forwarded_for in
    let real_ip = strip u request.real_ip in
    if not (is_trusted peer_ip)
    then peer_ip
    else if not (is_nil forwarded)
    then strip u (first_piece forwarded (split_once b',' forwarded))
    else if not (is_nil real_ip)
    then real_ip
    else peer_ip

-- The two pops of a client
abbrev pub forget : Text → Tracked → Tracked
forget client_ip s = record s {
  requests = remove client_ip s.requests;
  last_seen = remove client_ip s.last_seen;
}

module _ (limit : RateLimit) where
  -- The requests of a client that are within the window
  abbrev pub active_at : ℕ → List ℕ → List ℕ
  active_at now timestamps = keep_if (λ t. ltb now (t + limit.window_seconds)) timestamps

  -- A client keeps its active requests, or is forgotten.
  abbrev pub keep_active : Text → List ℕ → Tracked → Tracked
  keep_active client_ip [] s = forget client_ip s
  keep_active client_ip (t ∷ active) s = record s {
    requests = put client_ip (t ∷ active) s.requests;
    last_seen = put client_ip (last_of t active) s.last_seen;
  }

  -- A client of the loop of `_prune_expired`: it keeps its active requests, or is noted as expired.
  abbrev pub prune_client : Text → List ℕ → Tracked × List Text → Tracked × List Text
  prune_client client_ip [] (s, expired_clients) = (s, expired_clients ++ client_ip ∷ [])
  prune_client client_ip (t ∷ active) (s, expired_clients) =
      (keep_active client_ip (t ∷ active) s, expired_clients)

  -- The first loop of `_prune_expired`, over the entries
  abbrev pub prune_entries : ℕ → Dict Text (List ℕ) → Tracked × List Text → Tracked × List Text
  prune_entries now entries s =
      for_each (λ (entry : Text × List ℕ). prune_client entry.0 (active_at now entry.1)) entries s

  -- The two loops of `_prune_expired`
  unfoldable pub prune_expired : ℕ → Tracked → Tracked
  prune_expired now s =
      let pruned = prune_entries now s.requests (s, []) in
      record (for_each forget pruned.1 pruned.0) {
        next_prune_at = now + limit.prune_interval_seconds;
      }

  -- `sorted(last_seen.items(), key=...)[:overflow]`
  abbrev pub evicted_clients : ℕ → Tracked → List (Text × ℕ)
  evicted_clients required_slots s =
      take (length s.requests + required_slots - limit.max_tracked_clients)
        (sorted (λ (a : Text × ℕ) (b : Text × ℕ). leb a.1 b.1) s.last_seen)

  unfoldable pub ensure_capacity : ℕ → Tracked → Tracked
  ensure_capacity required_slots s =
      for_each (λ (entry : Text × ℕ). forget entry.0) (evicted_clients required_slots s) s

  -- The append of a request that passes
  abbrev pub record_request : Text → ℕ → Tracked → Tracked
  record_request client_ip now s = record s {
    requests = put client_ip (get_or client_ip s.requests [] ++ now ∷ []) s.requests;
    last_seen = put client_ip now s.last_seen;
  }

  -- `dispatch` for a client, after the pruning
  unfoldable pub admit : Text → ℕ → Tracked → Answer × Tracked
  admit client_ip now s =
      let active = active_at now (get_or client_ip s.requests []) in
      let kept = keep_active client_ip active s in
      if leb limit.max_requests (length active) then (too_many_requests, kept) else (
        passed_on,
        record_request client_ip now
            (if elem client_ip (keys kept.requests) then kept else ensure_capacity 1 kept),
      )

  unfoldable pub dispatch : Unicode → (Text → Bool) → ClientRequest → ℕ → Tracked → Answer × Tracked
  dispatch u is_trusted request now s =
      if is_exempt request.path
      then (passed_on, s)
      else admit (get_client_ip u is_trusted request) now
          (if leb s.next_prune_at now then prune_expired now s else s)
