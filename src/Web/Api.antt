-- ===== src/Web/Api.antt =====
-- web/admin/src/api.ts: the HTTP client of the admin console and its session token. `fetch` is the
-- browser's: its reply is an argument. A request is split where it awaits: `prepare` reads the
-- token and builds the request, `settle` treats the reply in the browser as it then is.
mod Tests
pub mod Headers
pub mod Session
pub mod Held
use bagualu.Base.{
  ℕ, ◌+◌, String, Bool, true, false, ◌&&◌, Option, none, some, List, [], ◌∷◌, leb, ◌==◌, nat_eq,
  string_eq, if◌then◌else◌,
}
use Prim.Native.String.{◌++◌ as join}

-- sessionStorage["bagualu_admin_token"], and how often "bagualu-auth-expired" was dispatched.
pub record Browser : Type 0 where
  pub token : Option String
  pub expired : ℕ

-- A plain object of headers, its keys in order of insertion.
abbrev pub Headers : Type 0
Headers = List (String × String)

pub header : String → Headers → Option String
header key [] = none
header key ((k, v) ∷ rest) = if k == key then some v else header key rest

-- o[key] = value
pub put_header : String → String → Headers → Headers
put_header key value [] = (key, value) ∷ []
put_header key value ((k, v) ∷ rest) =
    if k == key then (k, value) ∷ rest else (k, v) ∷ put_header key value rest

-- { ...base, ...extra }
pub spread : Headers → Headers → Headers
spread base [] = base
spread base ((k, v) ∷ rest) = spread (put_header k v base) rest

-- The body of a request: none, a text, or a form that holds a file.
pub data Payload (F : Type 0) : Type 0 where
  empty : Payload F
  json_text : String → Payload F
  form : F → Payload F

pub record Init (F : Type 0) : Type 0 where
  pub method : String
  pub headers : Headers
  pub body : Payload F

pub record Request (F : Type 0) : Type 0 where
  pub url : String
  pub method : String
  pub headers : Headers
  pub body : Payload F

pub record Response (T : Type 0) : Type 0 where
  pub status : ℕ
  pub status_text : String
  -- what `response.json()` resolves to; `none` where the body is no JSON
  pub json : Option T

-- What `fetch` settles with.
pub data Reply (T : Type 0) : Type 0 where
  unreachable : String → Reply T
  answered : Response T → Reply T

-- What is thrown: by `fetch`, for a status that is not ok, by `response.json()`.
pub data Failure : Type 0 where
  network : String → Failure
  http : ℕ → String → Failure
  syntax : Failure

pub data Result {ℓ} (A : Type ℓ) : Type ℓ where
  ok : A → Result A
  err : Failure → Result A

-- The test of `token ? … : {}`.
abbrev pub has_token : Option String → Bool
has_token none = false
has_token (some t) = if t == "" then false else true

abbrev pub bearer : Option String → Headers
bearer none = []
bearer (some t) = if t == "" then [] else ("Authorization", join "Bearer " t) ∷ []

-- response.ok
abbrev pub is_ok : ℕ → Bool
is_ok status = leb 200 status && leb status 299

module _ {F : Type 0} where
  pub prepare : String → Init F → Browser → Request F
  prepare path init b = record {
    url = join "/api/v1" path;
    method = init.method;
    headers =
        spread
          (spread (("Accept", "application/json") ∷ ("Content-Type", "application/json") ∷ [])
            (bearer b.token))
          init.headers;
    body = init.body;
  }

  pub prepare_upload : String → F → Browser → Request F
  prepare_upload path file b = record {
    url = join "/api/v1" path;
    method = "POST";
    headers = bearer b.token;
    body = form file;
  }

-- if (response.status === 401) { removeItem; dispatchEvent }
pub expire : ℕ → Browser → Browser
expire status b = if status == 401 then record { token = none; expired = b.expired + 1 } else b

module _ {T : Type 0} where
  abbrev parsed : Option T → Result T
  parsed none = err syntax
  parsed (some v) = ok v

  unfoldable pub settle : Reply T → Browser → Result T × Browser
  unfolding expire
  settle (unreachable reason) b = (err (network reason), b)
  settle (answered r) b = (
    if is_ok r.status then parsed r.json else err (http r.status r.status_text),
    expire r.status b,
  )

-- api.get, api.post, api.put and api.remove choose the method and the body.
module _ {F : Type 0} where
  pub get_init : Init F
  get_init = record { method = "GET"; headers = []; body = empty }

  pub remove_init : Init F
  remove_init = record { method = "DELETE"; headers = []; body = empty }

module _ {F B : Type 0} (stringify : B → String) where
  pub post_init : Option B → Init F
  post_init none = record { method = "POST"; headers = []; body = empty }
  post_init (some body) = record {
    method = "POST";
    headers = [];
    body = json_text (stringify body);
  }

  pub put_init : B → Init F
  put_init body = record { method = "PUT"; headers = []; body = json_text (stringify body) }

-- api.auth.login, from the reply on: a successful login stores the token that came.
keep_token : Result String × Browser → Result String × Browser
keep_token (ok token, b) = (ok token, record b { token = some token })
keep_token (err e, b) = (err e, b)

unfoldable pub login : Reply String → Browser → Result String × Browser
unfolding keep_token settle
login reply b = keep_token (settle reply b)

-- api.auth.logout, from the reply on: the token goes only if the server answered with success.
drop_token : {T : Type 0} → Result T × Browser → Result T × Browser
drop_token (ok v, b) = (ok v, record b { token = none })
drop_token (err e, b) = (err e, b)

pub logout : {T : Type 0} → Reply T → Browser → Result T × Browser
unfolding drop_token settle
logout reply b = drop_token (settle reply b)
