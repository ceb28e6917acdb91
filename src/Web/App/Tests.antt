-- ===== src/Web/App/Tests.antt =====
-- The console through a sequence of events.
use bagualu.Base.{
  ℕ, String, ◌≡◌, refl, ◌≢◌, false, Option, none, some, List, [], ◌∷◌, arith, str_eq_iff,
}
use bagualu.Web.Api.{login, settle, Browser, Reply, answered, has_token}
use bagualu.Web.App.{Event, replied, login_replied, run, mount, step}
use bagualu.Web.App.Session.{run-InStep}

abbrev signed_in : Browser
signed_in = record { token = some "t1"; expired = 0 }

abbrev welcomed : Reply String
welcomed = answered (record { status = 200; status_text = "OK"; json = some "t2" })

abbrev unauthorized : Reply ℕ
unauthorized = answered (record { status = 401; status_text = "Unauthorized"; json = none })

-- The answer to a request of the first session arrives after the second login, and ends it.
abbrev late_refusal : List (Event ℕ)
late_refusal = login_replied welcomed ∷ replied unauthorized ∷ []

not_empty : ◌≢◌ {A = Option String} (some "t2") (some "")
not_empty e = ground (arith, str_eq_iff "t2" "", e)

late_refusal_ends : (run (mount signed_in) late_refusal).authenticated ≡ false
unfolding run step mount login settle
late_refusal_ends = refl

run-InStep_example :
    (run (mount signed_in) late_refusal).authenticated
    ≡ has_token (run (mount signed_in) late_refusal).browser.token
run-InStep_example = run-InStep signed_in late_refusal (not_empty, (tt, tt))
