-- ===== src/Auth.antt =====
-- internal/transport/http/auth.go: the admin's sessions, the guard of the admin routes, and the
-- handlers of login, logout and the change of the password. SHA-256 is a parameter, and a token of
-- crypto/rand an argument; times are numbers of nanoseconds.
mod Tests
pub mod Sessions
pub mod Passwords
use bagualu.Base.{
  ℕ, ◌+◌, ◌*◌, String, Bool, true, false, not, ◌&&◌, ◌||◌, Option, none, some, ltb, ◌==◌, nat_eq,
  string_eq, if◌then◌else◌,
}

-- sessionStore: from a token to its expiry.
abbrev pub SessionStore : Type 0
SessionStore = String → Option ℕ

abbrev pub session_ttl : ℕ
session_ttl = 24 * 3600 * 1000000000

abbrev pub put_session : String → Option ℕ → SessionStore → SessionStore
put_session token expiry ss t = if t == token then expiry else ss t

pub create_session : ℕ → String → SessionStore → SessionStore
create_session now token ss = put_session token (some (now + session_ttl)) ss

pub revoke_session : String → SessionStore → SessionStore
revoke_session token ss = put_session token none ss

checked_session : ℕ → String → Option ℕ → SessionStore → Bool × SessionStore
checked_session now token none ss = (false, ss)
checked_session now token (some expiry) ss =
    if ltb expiry now then (false, put_session token none ss) else (true, ss)

pub validate_session : ℕ → String → SessionStore → Bool × SessionStore
unfolding checked_session
validate_session now token ss = checked_session now token (ss token) ss

-- What the server keeps: whether it has a store, and the setting admin_password_hash in it.
pub record Server : Type 0 where
  pub has_store : Bool
  pub password_hash : String
  pub sessions : SessionStore

-- An answer of a handler: an error with its status, a new token, or success.
pub data Answer : Type 0 where
  api_err : ℕ → Answer
  token_answer : String → Answer
  ok_answer : Answer

-- adminRequired: whether the wrapped handler is called.
pub admin_required : ℕ → String → Server → Bool × Server
unfolding validate_session
admin_required now token s =
    let (valid, sessions) = validate_session now token s.sessions in
    if token == "" then (false, s) else (valid, record s { sessions = sessions })

module _ (hash_password : String → String) where
  -- authLogin; `none` is a body that is no JSON
  pub auth_login : ℕ → String → Option String → Server → Answer × Server
  unfolding create_session
  auth_login now fresh none s = (api_err 400, s)
  auth_login now fresh (some password) s =
      let expected = if s.has_store then s.password_hash else "" in
      if password == ""
      then (api_err 400, s)
      else if expected == ""
      then (api_err 503, s)
      else if not (hash_password password == expected)
      then (api_err 401, s)
      else (token_answer fresh, record s { sessions = create_session now fresh s.sessions })

  -- authChangePassword, with the old and the new password; `saved` is whether Set succeeds
  pub auth_change_password : Bool → Option (String × String) → Server → Answer × Server
  auth_change_password saved none s = if s.has_store then (api_err 400, s) else (api_err 503, s)
  auth_change_password saved (some (old, new)) s =
      if not s.has_store
      then (api_err 503, s)
      else if (old == "") || (new == "")
      then (api_err 400, s)
      else if s.password_hash == ""
      then (api_err 503, s)
      else if not (hash_password old == s.password_hash)
      then (api_err 401, s)
      else if not saved
      then (api_err 500, s)
      else (ok_answer, record s { password_hash = hash_password new })

pub auth_logout : String → Server → Answer × Server
unfolding revoke_session
auth_logout token s = (ok_answer, record s { sessions = revoke_session token s.sessions })

-- authMe: the user's name that it answers; `stored` is what Get answers for admin_username.
unfoldable pub auth_me : Option String → Server → String
auth_me none s = "admin"
auth_me (some stored) s = if s.has_store && not (stored == "") then stored else "admin"

-- ResetAdminPassword: its error, and the server; `bytes` is the length of a text in bytes and
-- `failure` the error of Set.
unfoldable pub reset_admin_password :
    (String → String) → (String → ℕ) → Option String → String → Server → Option String × Server
reset_admin_password hash bytes failure password s =
    if not s.has_store
    then (some "settings store unavailable", s)
    else if ltb (bytes password) 8
    then (some "password must be at least 8 characters", s)
    else elim failure [
      | some e ↦ (some e, s)
      | none ↦ (none, record s { password_hash = hash password })
    ]
