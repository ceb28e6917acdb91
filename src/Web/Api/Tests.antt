-- ===== src/Web/Api/Tests.antt =====
-- The client at concrete replies.
use bagualu.Base.{ℕ, String, ◌≡◌, refl, none, some, List, [], ◌∷◌}
use bagualu.Web.Api.{Browser, Reply, answered, header, prepare, prepare_upload, get_init}
use bagualu.Web.Api.Held.{
  Exchange, logged_in, logged_out, requested, after_exchanges, last_session,
  exchanges-authorization,
}

abbrev signed_in : Browser
signed_in = record { token = some "t1"; expired = 0 }

abbrev refused : {T : Type 0} → ℕ → String → Reply T
refused status text = answered (record { status = status; status_text = text; json = none })

abbrev welcomed : Reply String
welcomed = answered (record { status = 200; status_text = "OK"; json = some "t2" })

-- A logout that a proxy refuses keeps the session; a 401 to a late request ends it.
abbrev exchanges : List (Exchange ℕ)
exchanges = logged_in welcomed ∷ logged_out (refused 502 "Bad Gateway") ∷ []

abbrev late_refusal : List (Exchange ℕ)
late_refusal = logged_in welcomed ∷ requested (refused 401 "Unauthorized") ∷ []

ended : last_session late_refusal none ≡ none
ended = refl

exchanges-authorization_example :
    (header "Authorization"
        (prepare {F = ℕ} "/nodes" get_init (after_exchanges exchanges signed_in)).headers
      ≡ some "Bearer t2")
    × (header "Authorization"
          (prepare_upload {F = ℕ} "/core" 7 (after_exchanges exchanges signed_in)).headers
        ≡ some "Bearer t2")
unfolding get_init header prepare_upload
exchanges-authorization_example =
    exchanges-authorization {F = ℕ} exchanges "/nodes" get_init 7 signed_in refl
