-- ===== src/Web/Api/Session.antt =====
-- How the replies to api.ts change the stored token.
use bagualu.Base.{
  ℕ, ◌+◌, String, ◌≡◌, refl, ◌≢◌, ◌⊎◌, inl, inr, Bool, true, false, Option, none, some, arith, ◌==◌,
  nat_eq, string_eq, if◌then◌else◌,
}
use bagualu.Web.Api.{
  Browser, Reply, answered, unreachable, Response, ok, is_ok, settle, logout, login, Result, err,
  Failure, http, drop_token, keep_token, parsed, expire,
}

abbrev pub is_unauthorized : {T : Type 0} → Reply T → Bool
is_unauthorized (unreachable reason) = false
is_unauthorized (answered r) = r.status == 401

-- A 401 alone removes the token and dispatches the event, whatever the request carried.
pub settle-browser :
    {T : Type 0} (reply : Reply T) (b : Browser)
    → (settle reply b).1
      ≡ (if is_unauthorized reply then record { token = none; expired = b.expired + 1 } else b)
unfolding settle
settle-browser (unreachable reason) b = refl
settle-browser (answered r) b = refl

ok_not_401 : (status : ℕ) → is_ok status ≡ true → (status == 401) ≡ false
ok_not_401 status h = ground arith

abbrev signed_out : Bool → Browser → Browser
signed_out unauthorized b =
    if unauthorized then record { token = none; expired = b.expired + 1 } else b

-- What a login leaves: a success stores the server's token and dispatches nothing; a failure
-- stores nothing, and signs out if it was a 401.
abbrev pub LeftByLogin : Bool → Browser → Result String → Browser → Type 0
LeftByLogin unauthorized b (ok token) b' =
    (b'.token ≡ some token) × (b'.expired ≡ b.expired) × (unauthorized ≡ false)
LeftByLogin unauthorized b (err e) b' = b' ≡ signed_out unauthorized b

keep_token-LeftByLogin :
    (good unauthorized : Bool) (json : Option String) (e : Failure) (b : Browser)
    → (good ≡ true → unauthorized ≡ false)
    → LeftByLogin unauthorized b
        (keep_token (if good then parsed json else err e, signed_out unauthorized b)).0
        (keep_token (if good then parsed json else err e, signed_out unauthorized b)).1
unfolding keep_token
keep_token-LeftByLogin true true json e b apart = cc (apart refl)
keep_token-LeftByLogin true false none e b apart = refl
keep_token-LeftByLogin true false (some v) e b apart = (refl, refl, refl)
keep_token-LeftByLogin false unauthorized json e b apart = refl

-- A login stores exactly the token that a 2xx reply holds; a failed one stores nothing, and a 401
-- also signs out whoever was signed in.
pub login-LeftByLogin :
    (reply : Reply String) (b : Browser)
    → LeftByLogin (is_unauthorized reply) b (login reply b).0 (login reply b).1
unfolding login
login-LeftByLogin (unreachable reason) b = refl
login-LeftByLogin (answered r) b =
    keep_token-LeftByLogin (is_ok r.status) (r.status == 401) r.json (http r.status r.status_text) b
      (ok_not_401 r.status)

-- After a logout the token is gone, or the browser is as before and the logout has failed.
abbrev pub LeftByLogout : {T : Type 0} → Browser → Result T → Browser → Type 0
LeftByLogout b (ok v) b' = (b'.token ≡ none) × (b'.expired ≡ b.expired)
LeftByLogout b (err e) b' = (b'.token ≡ none) ⊎ (b' ≡ b)

drop_token-LeftByLogout :
    {T : Type 0} (good unauthorized : Bool) (json : Option T) (e : Failure) (b : Browser)
    → (good ≡ true → unauthorized ≡ false)
    → LeftByLogout b
        (drop_token (if good then parsed json else err e, signed_out unauthorized b)).0
        (drop_token (if good then parsed json else err e, signed_out unauthorized b)).1
unfolding drop_token
drop_token-LeftByLogout true true json e b apart = cc (apart refl)
drop_token-LeftByLogout true false none e b apart = inr refl
drop_token-LeftByLogout true false (some v) e b apart = (refl, refl)
drop_token-LeftByLogout false true json e b apart = inl refl
drop_token-LeftByLogout false false json e b apart = inr refl

-- A successful logout removes the token and dispatches nothing; a failed one leaves the browser as
-- it was, or has removed the token too.
pub logout-LeftByLogout :
    {T : Type 0} (reply : Reply T) (b : Browser)
    → LeftByLogout b (logout reply b).0 (logout reply b).1
unfolding logout
logout-LeftByLogout (unreachable reason) b = inr refl
logout-LeftByLogout (answered r) b =
    drop_token-LeftByLogout (is_ok r.status) (r.status == 401) r.json (http r.status r.status_text)
      b (ok_not_401 r.status)

keep_token-eq-ok :
    (good : Bool) (json : Option String) (e : Failure) (b : Browser) (t : String)
    → (keep_token (if good then parsed json else err e, b)).0 ≡ ok t
    → json ≡ some t
unfolding keep_token
keep_token-eq-ok true none e b t h = cc
keep_token-eq-ok true (some v) e b t h = cc
keep_token-eq-ok false json e b t h = cc

pub login-eq-ok :
    (r : Response String) (b : Browser) (t : String)
    → (login (answered r) b).0 ≡ ok t
    → r.json ≡ some t
unfolding login
login-eq-ok r b t h =
    keep_token-eq-ok (is_ok r.status) r.json (http r.status r.status_text) (expire r.status b) t h

pub login-unreachable :
    (reason : String) (b : Browser) (t : String) → (login (unreachable reason) b).0 ≢ ok t
unfolding login
login-unreachable reason b t h = cc
