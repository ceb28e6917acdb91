-- ===== src/Access.antt =====
-- Who may read resources: the API keys of internal/domain/apikey.go behind apikeyRequired of
-- internal/transport/http/auth.go, the links of internal/domain/subscription_link.go, and the
-- states of internal/domain/job.go. The store's lookup and SHA-256 are parameters.
mod Tests
pub mod Guards
use bagualu.Base.{
  ℕ, String, Bool, true, false, not, ◌&&◌, ◌||◌, Option, none, some, ltb, ◌==◌, nat_eq, string_eq,
  if◌then◌else◌,
}

-- The fields that the tests read; a time that is nil is `none`.
pub record ApiKey : Type 0 where
  pub id : String
  pub key_hash : String
  pub expires_at : Option ℕ
  pub revoked_at : Option ℕ

is_set : Option ℕ → Bool
is_set none = false
is_set (some t) = true

abbrev pub has_passed : ℕ → Option ℕ → Bool
has_passed now none = false
has_passed now (some t) = not (ltb now t)

pub is_revoked : ApiKey → Bool
unfolding is_set
is_revoked k = is_set k.revoked_at

pub is_expired : ℕ → ApiKey → Bool
is_expired now k = has_passed now k.expires_at

pub is_active : ℕ → ApiKey → Bool
unfolding is_revoked is_expired
is_active now k = not (is_revoked k) && not (is_expired now k)

pub record SubscriptionLink : Type 0 where
  pub enabled : Bool
  pub expires_at : Option ℕ

pub link_is_expired : ℕ → SubscriptionLink → Bool
link_is_expired now l = has_passed now l.expires_at

pub is_accessible : ℕ → SubscriptionLink → Bool
unfolding link_is_expired
is_accessible now l = l.enabled && not (link_is_expired now l)

pub is_terminal : String → Bool
is_terminal status =
    (status == "done")
    || ((status == "succeeded") || ((status == "failed") || (status == "cancelled")))

-- What apikeyRequired does: the status of an error, or the call of the handler with the key.
pub data Verdict : Type 0 where
  refused : ℕ → Verdict
  served : ApiKey → Verdict

judged : ℕ → Option ApiKey → Verdict
judged now none = refused 401
judged now (some k) = if is_active now k then served k else refused 401

-- `find_by_key_hash` answers `none` for an error
pub api_key_required : (String → String) → Bool → (String → Option ApiKey) → ℕ → String → Verdict
unfolding judged
api_key_required hash has_store find_by_key_hash now token =
    if not has_store
    then refused 503
    else if token == ""
    then refused 401
    else judged now (find_by_key_hash (hash token))
