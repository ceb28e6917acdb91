-- ===== src/Access/Guards.antt =====
-- The guard of the API keys in internal/transport/http/auth.go.
use bagualu.Base.{
  ℕ, ◌≤◌, ◌<◌, String, ◌≡◌, refl, sym, ◌≢◌, ◌↔◌, inl, inr, Bool, true, false, not, ◌&&◌, Option,
  none, some, arith, ◌==◌, nat_eq, string_eq, str_eq_iff, Bool-cases, Option-cases,
}
use bagualu.Access.{
  ApiKey, is_set, has_passed, is_revoked, is_expired, is_active, served, judged, api_key_required,
}

-- Without a time, or before it.
abbrev pub IsAhead : ℕ → Option ℕ → Type 0
IsAhead now none = Unit
IsAhead now (some t) = now < t

has_passed-IsAhead : (now : ℕ) (o : Option ℕ) → (has_passed now o ≡ false) ↔ IsAhead now o
has_passed-IsAhead now none = (λ h. tt, λ h. refl)
has_passed-IsAhead now (some t) = (λ h. ground arith, λ h. ground arith)

IsAhead-le : (earlier now : ℕ) (o : Option ℕ) → earlier ≤ now → IsAhead now o → IsAhead earlier o
IsAhead-le earlier now none le h = tt
IsAhead-le earlier now (some t) le h = omega arith

is_set-none : (o : Option ℕ) → is_set o ≡ false → o ≡ none
unfolding is_set
is_set-none none h = refl
is_set-none (some t) h = absurd (cc h)

pub record IsServed (hash : String → String) (has_store : Bool) (find : String → Option ApiKey)
    (now : ℕ) (token : String) (k : ApiKey) : Type 0 where
  pub stored : has_store ≡ true
  pub given : token ≢ ""
  pub found : find (hash token) ≡ some k
  pub kept : k.revoked_at ≡ none
  pub ahead : IsAhead now k.expires_at

-- The handler behind apikeyRequired is called with a key only if the store is there, a token was
-- given, its hash finds that key, and the key was not revoked and has not expired; and the same
-- request was served at each earlier time too.
pub api_key_required-IsServed :
    (hash : String → String) (has_store : Bool) (find : String → Option ApiKey) (earlier now : ℕ)
    (token : String) (k : ApiKey)
    → api_key_required hash has_store find now token ≡ served k
    → earlier ≤ now
    → IsServed hash has_store find now token k
      × (api_key_required hash has_store find earlier token ≡ served k)
unfolding api_key_required judged is_active is_revoked is_expired is_set
api_key_required-IsServed hash has_store find earlier now token k = elim (Bool-cases has_store) [
  | inr no_store ↦ simp no_store (λ h. absurd (cc h))
  | inl store ↦ simp store (elim (Bool-cases (token == "")) [
    | inl blank ↦ simp blank (λ h. absurd (cc h))
    | inr given ↦ simp given (elim (Option-cases (find (hash token))) [
      | inl missing ↦ simp missing (λ h. absurd (cc h))
      | inr (j, is) ↦
          simp is
            (elim (Bool-cases (not (is_set j.revoked_at) && not (has_passed now j.expires_at))) [
              | inr dead ↦ simp dead (λ h. absurd (cc h))
              | inl active ↦ simp active (λ h le.
                  let same : j ≡ k = cc h in
                  let unset : is_set j.revoked_at ≡ false = ground arith in
                  let pending : has_passed now j.expires_at ≡ false = ground arith in
                  let ahead = (has_passed-IsAhead now j.expires_at).0 pending in
                  let before =
                    (has_passed-IsAhead earlier j.expires_at).1
                      (IsAhead-le earlier now j.expires_at le ahead) in
                  rw (sym same) (
                    record {
                      stored = refl;
                      given = λ none_given. let iff = str_eq_iff token "" in absurd (ground arith);
                      found = is;
                      kept = is_set-none j.revoked_at unset;
                      ahead = ahead;
                    },
                    rw (unset, before) refl,
                  ))
            ])
    ])
  ])
]
