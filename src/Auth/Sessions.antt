-- ===== src/Auth/Sessions.antt =====
-- The sessions of internal/transport/http/auth.go over a whole history.
use bagualu.Base.{
  ℕ, ◌+◌, ◌≤◌, ◌<◌, String, ◌≡◌, refl, ap, ◌∙◌, inl, inr, Bool, false, Option, none, some, List, [],
  ◌∷◌, arith, ltb, leb, ◌==◌, nat_eq, string_eq, str_eq_iff, if◌then◌else◌, Bool-cases,
}
use bagualu.Auth.{
  SessionStore, session_ttl, create_session, revoke_session, validate_session, checked_session,
}

-- A use of the store, with its time and token.
pub data Use : Type 0 where
  created validated revoked : ℕ → String → Use

-- The store after a history, the newest use first.
unfoldable pub after_uses : List Use → SessionStore
after_uses [] = λ t. none
after_uses (created now token ∷ older) = create_session now token (after_uses older)
after_uses (validated now token ∷ older) = (validate_session now token (after_uses older)).1
after_uses (revoked now token ∷ older) = revoke_session token (after_uses older)

-- When the session of a token was created, if it was not revoked since.
abbrev pub live_since : String → List Use → Option ℕ
live_since t [] = none
live_since t (created now token ∷ older) = if t == token then some now else live_since t older
live_since t (validated now token ∷ older) = live_since t older
live_since t (revoked now token ∷ older) = if t == token then none else live_since t older

abbrev pub time_of : Use → ℕ
time_of (created now token) = now
time_of (validated now token) = now
time_of (revoked now token) = now

-- The clock does not run backwards, up to `now`.
abbrev pub IsTimed : ℕ → List Use → Type 0
IsTimed now [] = Unit
IsTimed now (u ∷ older) = (time_of u ≤ now) × IsTimed (time_of u) older

-- The entry of a token against its session: dropped entries have expired.
abbrev Holds : ℕ → Option ℕ → Option ℕ → Type 0
Holds now none none = Unit
Holds now none (some since) = since + session_ttl < now
Holds now (some expiry) none = ⊥
Holds now (some expiry) (some since) = expiry ≡ since + session_ttl

Holds-later : (now later : ℕ) (e l : Option ℕ) → now ≤ later → Holds now e l → Holds later e l
Holds-later now later none none le h = tt
Holds-later now later none (some s) le h = omega arith
Holds-later now later (some e) none le h = h
Holds-later now later (some e) (some s) le h = h

dropped-Holds :
    (now expiry : ℕ) (l : Option ℕ) → Holds now (some expiry) l → expiry < now → Holds now none l
dropped-Holds now expiry none h old = tt
dropped-Holds now expiry (some s) h old = omega arith

validate-Holds :
    (now : ℕ) (t token : String) (ss : SessionStore) (e l : Option ℕ)
    → ss token ≡ e
    → Holds now (ss t) l
    → Holds now ((checked_session now token e ss).1 t) l
unfolding checked_session
validate-Holds now t token ss none l is h = h
validate-Holds now t token ss (some expiry) l is h = elim (Bool-cases (ltb expiry now)) [
  | inr fresh ↦ rw fresh h
  | inl old ↦ rw old (elim (Bool-cases (t == token)) [
    | inr other ↦ rw other h
    | inl same ↦ rw same (
        let here : ss t ≡ some expiry = ap ss ((str_eq_iff t token).0 same) ∙ is in
        dropped-Holds now expiry l (rw here at h) (ground arith))
  ])
]

after-Holds :
    (t : String) (now : ℕ) (h : List Use)
    → IsTimed now h
    → Holds now (after_uses h t) (live_since t h)
unfolding after_uses create_session revoke_session validate_session
after-Holds t now [] timed = tt
after-Holds t now (created at token ∷ older) timed =
    let rest =
      Holds-later at now (after_uses older t) (live_since t older) timed.0
        (after-Holds t at older timed.1) in
    elim (Bool-cases (t == token)) [ inl same ↦ rw same refl | inr other ↦ rw other rest ]
after-Holds t now (validated at token ∷ older) timed =
    let rest = after-Holds t at older timed.1 in
    Holds-later at now _ (live_since t older) timed.0 (
      validate-Holds at t token (after_uses older) (after_uses older token) (live_since t older)
        refl rest)
after-Holds t now (revoked at token ∷ older) timed =
    let rest =
      Holds-later at now (after_uses older t) (live_since t older) timed.0
        (after-Holds t at older timed.1) in
    elim (Bool-cases (t == token)) [ inl same ↦ rw same tt | inr other ↦ rw other rest ]

abbrev pub is_live : ℕ → Option ℕ → Bool
is_live now none = false
is_live now (some since) = leb now (since + session_ttl)

Holds-valid :
    (now : ℕ) (token : String) (ss : SessionStore) (e l : Option ℕ)
    → Holds now e l
    → (checked_session now token e ss).0 ≡ is_live now l
unfolding checked_session
Holds-valid now token ss none none h = refl
Holds-valid now token ss none (some s) h = ground arith
Holds-valid now token ss (some e) none h = absurd h
Holds-valid now token ss (some e) (some s) h = ground arith

-- After any history of a store whose clock does not run backwards, a token is valid exactly if it
-- was created, not revoked since its last creation, and that was at most 24 hours ago; that
-- validate drops expired sessions makes no difference.
pub validate_session-after_uses :
    (now : ℕ) (token : String) (h : List Use)
    → IsTimed now h
    → (validate_session now token (after_uses h)).0 ≡ is_live now (live_since token h)
unfolding validate_session
validate_session-after_uses now token h timed =
    Holds-valid now token (after_uses h) (after_uses h token) (live_since token h)
      (after-Holds token now h timed)
