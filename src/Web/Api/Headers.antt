-- ===== src/Web/Api/Headers.antt =====
-- Which headers api.ts sends.
use Prim.Native.String.{◌++◌ as join}
use bagualu.Base.{
  String, ◌≡◌, refl, ◌∙◌, Option, none, some, [], ◌∷◌, arith, ◌==◌, nat_eq, string_eq, str_eq_iff,
  if◌then◌else◌,
}
use bagualu.Web.Api.{
  Browser, Headers, Init, header, put_header, spread, bearer, prepare, prepare_upload,
}

header-put_header :
    (key value k : String) (o : Headers)
    → header k (put_header key value o) ≡ (if key == k then some value else header k o)
unfolding header put_header
header-put_header key value k [] = refl
header-put_header key value k ((j, v) ∷ rest) =
    ground (
      arith,
      header-put_header key value k rest,
      str_eq_iff j key,
      str_eq_iff j k,
      str_eq_iff key k,
    )

header-spread :
    (k : String) (base extra : Headers)
    → header k extra ≡ none
    → header k (spread base extra) ≡ header k base
unfolding header spread
header-spread k base [] h = refl
header-spread k base ((j, v) ∷ rest) h =
    ground (arith, header-spread k (put_header j v base) rest, header-put_header j v k base)

abbrev base : Headers
base = ("Accept", "application/json") ∷ ("Content-Type", "application/json") ∷ []

-- The header that a token calls for.
abbrev pub authorization : Option String → Option String
authorization none = none
authorization (some t) = if t == "" then none else some (join "Bearer " t)

header-bearer :
    (token : Option String) → header "Authorization" (bearer token) ≡ authorization token
unfolding header
header-bearer none = refl
header-bearer (some t) = ground arith

header-spread-bearer :
    (token : Option String)
    → header "Authorization" (spread base (bearer token)) ≡ authorization token
unfolding header spread put_header
header-spread-bearer none = refl
header-spread-bearer (some t) = ground arith

module _ {F : Type 0} (path : String) (init : Init F) (file : F) (b : Browser) where
  header-prepare :
      header "Authorization" init.headers ≡ none
      → header "Authorization" (prepare path init b).headers ≡ authorization b.token
  unfolding prepare
  header-prepare h = header-spread "Authorization" _ init.headers h ∙ header-spread-bearer b.token

  header-prepare_upload :
      header "Authorization" (prepare_upload path file b).headers ≡ authorization b.token
  unfolding prepare_upload
  header-prepare_upload = header-bearer b.token

  pub prepare-authorization :
      header "Authorization" init.headers ≡ none
      → (header "Authorization" (prepare path init b).headers ≡ authorization b.token)
        × (header "Authorization" (prepare_upload path file b).headers ≡ authorization b.token)
  prepare-authorization h = (header-prepare h, header-prepare_upload)
