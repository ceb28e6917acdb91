-- ===== src/Web/Api/Held.antt =====
-- Which session the requests of api.ts carry after any replies.
use bagualu.Base.{
  ℕ, ◌+◌, String, ◌≡◌, refl, ap, ◌∙◌, Bool, true, false, ◌&&◌, Option, none, some, List, [], ◌∷◌,
  arith, ltb, leb, ◌==◌, nat_eq, string_eq, if◌then◌else◌,
}
use bagualu.Web.Api.{
  Browser, Init, Reply, answered, unreachable, Failure, err, http, header, prepare, prepare_upload,
  is_ok, expire, settle, parsed, login, keep_token, logout, drop_token,
}
use bagualu.Web.Api.Headers.{authorization, prepare-authorization}

-- A call of the client that was settled: a login, a logout, or another request.
pub data Exchange (T : Type 0) : Type 0 where
  logged_in : Reply String → Exchange T
  logged_out requested : Reply T → Exchange T

-- A status from 200 to 299.
abbrev pub is_success : ℕ → Bool
is_success status = leb 200 status && ltb status 300

-- What the JSON of a success starts; a body that is no JSON starts nothing.
abbrev pub with_session :
    {A : Type 0} → (A → Option String) → Option A → Option String → Option String
with_session f none held = held
with_session f (some v) held = f v

-- The session that a reply leaves: a 401 ends it, a success leaves what `f` gives for its JSON, and
-- any other reply leaves the one that was held.
abbrev pub session_after :
    {A : Type 0} → (A → Option String) → Reply A → Option String → Option String
session_after f (unreachable reason) held = held
session_after f (answered r) held =
    if r.status == 401
    then none
    else if is_success r.status
    then with_session f r.json held
    else held

success_lem : (status : ℕ) → is_ok status ≡ is_success status
success_lem status = ground arith

apart_lem : (status : ℕ) → (status == 401) ≡ true → is_ok status ≡ false
apart_lem status h = ground arith

abbrev left :
    {A : Type 0} → (A → Option String) → Option A → Option String → Bool → Bool → Option String
left f json held u g = if u then none else if g then with_session f json held else held

abbrev dropped : Bool → Browser → Browser
dropped u b = if u then record { token = none; expired = b.expired + 1 } else b

login_case :
    (json : Option String) (u g : Bool) (e : Failure) (b : Browser)
    → (u ≡ true → g ≡ false)
    → (keep_token (if g then parsed json else err e, dropped u b)).1.token
      ≡ left (λ t. some t) json b.token u g
unfolding keep_token
login_case json true true e b apart = absurd (cc (apart refl))
login_case json true false e b apart = refl
login_case json false false e b apart = refl
login_case none false true e b apart = refl
login_case (some t) false true e b apart = refl

logout_case :
    {T : Type 0} (json : Option T) (u g : Bool) (e : Failure) (b : Browser)
    → (u ≡ true → g ≡ false)
    → (drop_token (if g then parsed json else err e, dropped u b)).1.token
      ≡ left (λ v. none) json b.token u g
unfolding drop_token
logout_case json true true e b apart = absurd (cc (apart refl))
logout_case json true false e b apart = refl
logout_case json false false e b apart = refl
logout_case none false true e b apart = refl
logout_case (some v) false true e b apart = refl

settle_case :
    {T : Type 0} (json : Option T) (u g : Bool) (b : Browser)
    → (dropped u b).token ≡ left (λ v. b.token) json b.token u g
settle_case json true g b = refl
settle_case json false false b = refl
settle_case none false true b = refl
settle_case (some v) false true b = refl

module _ {T : Type 0} where
  abbrev pub after_exchange : Exchange T → Browser → Browser
  after_exchange (logged_in reply) b = (login reply b).1
  after_exchange (logged_out reply) b = (logout reply b).1
  after_exchange (requested reply) b = (settle reply b).1

  -- The browser after the replies, in the order in which they arrive.
  abbrev pub after_exchanges : List (Exchange T) → Browser → Browser
  after_exchanges [] b = b
  after_exchanges (e ∷ l) b = after_exchanges l (after_exchange e b)

  -- The session after a call: a success of a login starts that of its token, and one of a logout ends
  -- it.
  abbrev pub session : Exchange T → Option String → Option String
  session (logged_in reply) held = session_after (λ t. some t) reply held
  session (logged_out reply) held = session_after (λ v. none) reply held
  session (requested reply) held = session_after (λ v. held) reply held

  abbrev pub last_session : List (Exchange T) → Option String → Option String
  last_session [] held = held
  last_session (e ∷ l) held = last_session l (session e held)

  exchange-session : (e : Exchange T) (b : Browser) → (after_exchange e b).token ≡ session e b.token
  unfolding login logout settle expire
  exchange-session (logged_in (unreachable reason)) b = unfold keep_token in refl
  exchange-session (logged_in (answered r)) b =
      login_case r.json (r.status == 401) (is_ok r.status) (http r.status r.status_text) b
        (apart_lem r.status)
      ∙ ap (left (λ t. some t) r.json b.token (r.status == 401)) (success_lem r.status)
  exchange-session (logged_out (unreachable reason)) b = unfold drop_token in refl
  exchange-session (logged_out (answered r)) b =
      logout_case r.json (r.status == 401) (is_ok r.status) (http r.status r.status_text) b
        (apart_lem r.status)
      ∙ ap (left (λ v. none) r.json b.token (r.status == 401)) (success_lem r.status)
  exchange-session (requested (unreachable reason)) b = refl
  exchange-session (requested (answered r)) b =
      settle_case r.json (r.status == 401) (is_success r.status) b

  exchanges-session :
      (l : List (Exchange T)) (b : Browser) → (after_exchanges l b).token ≡ last_session l b.token
  exchanges-session [] b = refl
  exchanges-session (e ∷ l) b =
      exchanges-session l (after_exchange e b) ∙ ap (last_session l) (exchange-session e b)

-- After any logins, logouts and other requests, in the order of their replies, the next request and
-- the next upload carry the token of the last session: that of the last login which a status from
-- 200 to 299 and a JSON body answered, unless a 401 to any of the calls or such an answer to a logout
-- came later, after which they carry none; the caller's own headers have no Authorization.
pub exchanges-authorization :
    {T F : Type 0} (l : List (Exchange T)) (path : String) (init : Init F) (file : F) (b : Browser)
    → header "Authorization" init.headers ≡ none
    → (header "Authorization" (prepare path init (after_exchanges l b)).headers
        ≡ authorization (last_session l b.token))
      × (header "Authorization" (prepare_upload path file (after_exchanges l b)).headers
          ≡ authorization (last_session l b.token))
exchanges-authorization l path init file b h =
    let (sent, uploaded) = prepare-authorization path init file (after_exchanges l b) h in
    let held = ap authorization (exchanges-session l b) in (sent ∙ held, uploaded ∙ held)
