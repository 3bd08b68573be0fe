-- ===== src/Services/Errors.antt =====
-- The exceptions of backend/app/core/exceptions.py that the services and the API raise, by the status that they
-- answer with; their messages are left out. `unhandled` is any other exception, such as one of the database
-- at a commit, after which the session is rolled back.
use restock_system.Common.{◌≡◌}

pub data ApiError : Type 0 where
  validation_failed not_found conflict unhandled : ApiError

-- What a call of a service comes to
pub data Reply {ℓ} (A : Type ℓ) : Type ℓ where
  refused : ApiError → Reply A
  answered : A → Reply A

pub answered_inj {ℓ} : {A : Type ℓ} {a b : A} → answered a ≡ answered b → a ≡ b
answered_inj h = cc
