-- ===== src/Access/Tests.antt =====
-- A key that expires at 100.
use bagualu.Base.{
  String, ◌≡◌, refl, true, Option, none, some, arith, ◌==◌, nat_eq, string_eq, if◌then◌else◌,
}
use bagualu.Access.{ApiKey, served, refused, api_key_required, is_active, is_expired, is_revoked}
use bagualu.Access.Guards.{IsServed, api_key_required-IsServed}

abbrev key : ApiKey
key = record { id = "k1"; key_hash = "h1"; expires_at = some 100; revoked_at = none }

abbrev find : String → Option ApiKey
find h = if h == "h1" then some key else none

late : api_key_required (λ t. "h1") true find 100 "secret" ≡ refused 401
unfolding api_key_required is_active is_expired is_revoked
late = refl

api_key_required-IsServed_example :
    IsServed (λ t. "h1") true find 60 "secret" key
    × (api_key_required (λ t. "h1") true find 20 "secret" ≡ served key)
unfolding api_key_required is_active is_expired is_revoked
api_key_required-IsServed_example =
    api_key_required-IsServed (λ t. "h1") true find 20 60 "secret" key refl (omega arith)
