-- ===== src/Web/App/Session.antt =====
-- What App shows and what sessionStorage holds stay in step (web/admin/src/main.tsx, api.ts).
use bagualu.Base.{
  ◌+◌, String, ◌≡◌, refl, ap, ◌∙◌, ◌≢◌, Bool, true, false, none, some, List, [], ◌∷◌, arith,
  str_eq_iff, if◌then◌else◌, All,
}
use bagualu.Web.Api.{Browser, Reply, Result, ok, err, has_token, login, unreachable, answered}
use bagualu.Web.Api.Session.{
  is_unauthorized, settle-browser, LeftByLogin, login-LeftByLogin, login-unreachable, login-eq-ok,
}
use bagualu.Web.App.{
  App, mount, heard, on_login, Event, navigated, replied, login_replied, reloaded, step, run,
}

-- The server's successful logins hold a token that is not empty.
abbrev pub GivesToken : Reply String → Type 0
GivesToken (unreachable reason) = Unit
GivesToken (answered r) = r.json ≢ some ""

abbrev pub IsFair : {T : Type 0} → Event T → Type 0
IsFair (login_replied reply) = GivesToken reply
IsFair _ = Unit

abbrev pub InStep : App → Type 0
InStep a = a.authenticated ≡ has_token a.browser.token

abbrev kept : Bool → Browser → Browser
kept unauthorized b = if unauthorized then record { token = none; expired = b.expired + 1 } else b

heard-kept :
    (unauthorized : Bool) (b : Browser) (authenticated : Bool)
    → authenticated ≡ has_token b.token
    → heard b (kept unauthorized b) authenticated ≡ has_token (kept unauthorized b).token
unfolding heard
heard-kept true b authenticated h = ground arith
heard-kept false b authenticated h = ground arith

on_login-kept :
    (unauthorized : Bool) (b : Browser) (result : Result String) (b' : Browser)
    (authenticated : Bool)
    → LeftByLogin unauthorized b result b'
    → ((t : String) → result ≡ ok t → t ≢ "")
    → authenticated ≡ has_token b.token
    → on_login result (heard b b' authenticated) ≡ has_token b'.token
unfolding on_login
on_login-kept unauthorized b (ok t) b' authenticated left fair h =
    let given = fair t refl in rw (left.0) (ground (arith, str_eq_iff t ""))
on_login-kept unauthorized b (err e) b' authenticated left fair h =
    rw left (heard-kept unauthorized b authenticated h)

login-GivesToken :
    (reply : Reply String) (b : Browser)
    → GivesToken reply
    → (t : String) → (login reply b).0 ≡ ok t
    → t ≢ ""
login-GivesToken (unreachable reason) b fair t h = absurd (login-unreachable reason b t h)
login-GivesToken (answered r) b fair t h = λ e. fair (login-eq-ok r b t h ∙ ap some e)

step-InStep : {T : Type 0} (a : App) (e : Event T) → IsFair e → InStep a → InStep (step a e)
unfolding step
step-InStep a (navigated p) fair h = h
step-InStep a (replied reply) fair h =
    rw (settle-browser reply a.browser)
      (heard-kept (is_unauthorized reply) a.browser a.authenticated h)
step-InStep a (login_replied reply) fair h =
    on_login-kept (is_unauthorized reply) a.browser (login reply a.browser).0
      (login reply a.browser).1 a.authenticated (login-LeftByLogin reply a.browser)
      (login-GivesToken reply a.browser fair) h
step-InStep a reloaded fair h = refl

run_from :
    {T : Type 0} (a : App) (es : List (Event T)) → All IsFair es → InStep a → InStep (run a es)
unfolding run
run_from a [] fair h = h
run_from a (e ∷ es) fair h = run_from (step a e) es fair.1 (step-InStep a e fair.0 h)

-- From the load of the console on, through any replies (failures and 401s in any order, for
-- requests sent under any token), logins and reloads, the console shows its pages exactly while a
-- token is stored, if successful logins give tokens that are not empty.
pub run-InStep :
    {T : Type 0} (b : Browser) (es : List (Event T))
    → All IsFair es
    → (run (mount b) es).authenticated ≡ has_token (run (mount b) es).browser.token
run-InStep b es fair = run_from (mount b) es fair (unfold mount in refl)
