-- ===== src/Refresh/Fetch.antt =====
-- fetch of internal/application/upstream_refresh.go, over the answers of net/url and net/http.
use bagualu.Base.{
  ℕ, zero, suc, ◌*◌, ◌^◌, ◌≤◌, ◌<◌, String, ◌≡◌, refl, ap, ◌⊎◌, inl, inr, true, false, not, ◌&&◌,
  ◌||◌, Option, none, some, List, [], ◌∷◌, arith, ltb, leb, ◌==◌, nat_eq, string_eq, if◌then◌else◌,
  Bool-cases, Option-cases, length, take,
}
use bagualu.Refresh.Store.{
  RefreshError, invalid_url, request_failed, read_failed, too_large, http_status,
}

pub record Url : Type 0 where
  pub scheme : String
  pub host : String
  pub spelling : String

-- An answer: its status, and its body unless the reading of it fails.
pub record HttpResponse : Type 0 where
  pub status : ℕ
  pub body : Option (List ℕ)

-- What net/url and net/http give. `parse_url` includes strings.TrimSpace; `send` is `none` where the
-- request cannot be built or client.Do fails.
pub record Http : Type 0 where
  pub parse_url : String → Option Url
  pub send : String → Option HttpResponse

-- 16 << 20
unfoldable pub max_subscription_body : ℕ
max_subscription_body = 16 * 2 ^ 20

pub data Fetched : Type 0 where
  body : List ℕ → Fetched
  refused : RefreshError → Fetched

-- The bytes that io.LimitReader lets through, with the test of their number.
read_body : Option (List ℕ) → Fetched
read_body none = refused read_failed
read_body (some bytes) =
    let read = take (suc max_subscription_body) bytes in
    if ltb max_subscription_body (length read) then refused too_large else body read

check_response : Option HttpResponse → Fetched
unfolding read_body
check_response none = refused request_failed
check_response (some r) =
    if ltb r.status 200 || leb 300 r.status
    then refused (http_status r.status)
    else read_body r.body

fetch_url : Http → Option Url → Fetched
unfolding check_response
fetch_url h none = refused invalid_url
fetch_url h (some u) =
    if (u.host == "") || (not (u.scheme == "http") && not (u.scheme == "https"))
    then refused invalid_url
    else check_response (h.send u.spelling)

unfoldable pub fetch : Http → String → Fetched
unfolding fetch_url
fetch h raw_url = fetch_url h (h.parse_url raw_url)

take-all : (n : ℕ) (l : List ℕ) → length (take n l) < n → take n l ≡ l
take-all zero l h = absurd (omega arith)
take-all (suc n) [] h = refl
take-all (suc n) (x ∷ l) h = ap (λ k. x ∷ k) (take-all n l (omega arith))

-- The request that is made, and an answer whose body is taken.
abbrev pub IsAnswered : Http → Url → String → List ℕ → Type 0
IsAnswered h u raw_url bytes =
    (r : HttpResponse) × (h.parse_url raw_url ≡ some u)
    × ((u.host == "") ≡ false)
    × (((u.scheme == "http") ≡ true) ⊎ ((u.scheme == "https") ≡ true))
    × (h.send u.spelling ≡ some r)
    × (200 ≤ r.status)
    × (r.status < 300)
    × (r.body ≡ some bytes)
    × (length bytes ≤ max_subscription_body)

abbrev pub IsFetched : Http → String → List ℕ → Type 0
IsFetched h raw_url bytes = (u : Url) × IsAnswered h u raw_url bytes

leb-bound : (n m : ℕ) → ltb n m ≡ false → m ≤ n
leb-bound n m h = ground arith

read_body-taken :
    (o : Option (List ℕ)) (bytes : List ℕ)
    → read_body o ≡ body bytes
    → (o ≡ some bytes) × (length bytes ≤ max_subscription_body)
unfolding read_body
read_body-taken none bytes e = absurd (cc e)
read_body-taken (some l) bytes e =
    elim (Bool-cases (ltb max_subscription_body (length (take (suc max_subscription_body) l)))) [
      | inl h ↦ absurd (cc (rw h at e))
      | inr h ↦
          let whole = take-all (suc max_subscription_body) l (ground arith) in
          let same : body l ≡ body bytes = rw (h, whole) at e in
          let l_eq : l ≡ bytes = cc same in
          (ap some l_eq, rw (← l_eq) (rw whole at (leb-bound _ _ h)))
    ]

check_response-taken :
    (o : Option HttpResponse) (bytes : List ℕ)
    → check_response o ≡ body bytes
    → (r : HttpResponse) × (o ≡ some r)
      × (200 ≤ r.status)
      × (r.status < 300)
      × (r.body ≡ some bytes)
      × (length bytes ≤ max_subscription_body)
unfolding check_response
check_response-taken none bytes e = absurd (cc e)
check_response-taken (some r) bytes e = elim (Bool-cases (ltb r.status 200 || leb 300 r.status)) [
  | inl h ↦ absurd (cc (rw h at e))
  | inr h ↦
      let taken = read_body-taken r.body bytes (rw h at e) in
      (r, refl, ground arith, ground arith, taken.0, taken.1)
]

fetch_url-taken :
    (h : Http) (u : Url) (raw_url : String) (bytes : List ℕ)
    → h.parse_url raw_url ≡ some u
    → fetch_url h (some u) ≡ body bytes
    → IsAnswered h u raw_url bytes
unfolding fetch_url
fetch_url-taken h u raw_url bytes p e =
    elim (Bool-cases ((u.host == "") || (not (u.scheme == "http") && not (u.scheme == "https")))) [
      | inl t ↦ absurd (cc (rw t at e))
      | inr t ↦
          let (r, sent, low, high, whole, short) =
            check_response-taken (h.send u.spelling) bytes (rw t at e) in
          (r, p, ground arith, ground arith, sent, low, high, whole, short)
    ]

-- A body is taken only from an http or https URL with a host, whose request was answered by a
-- status from 200 to 299, and it is the whole body of that answer, of at most 16 MiB.
pub fetch-IsFetched :
    (h : Http) (raw_url : String) (bytes : List ℕ)
    → fetch h raw_url ≡ body bytes
    → IsFetched h raw_url bytes
unfolding fetch
fetch-IsFetched h raw_url bytes e = elim (Option-cases (h.parse_url raw_url)) [
  | inl p ↦ absurd (cc (rw (p, fetch_url) at e))
  | inr (u, p) ↦ (u, fetch_url-taken h u raw_url bytes p (rw p at e))
]
