-- ===== src/Auth/Tests.antt =====
-- A server with a password, and a session that is revoked.
use bagualu.Base.{
  String, ◌≡◌, refl, ◌≢◌, ◌↔◌, inl, inr, true, false, none, some, List, [], ◌∷◌, arith, ◌==◌,
  nat_eq, string_eq, str_eq_iff, if◌then◌else◌, Bool-cases,
}
use bagualu.Auth.{
  auth_me, reset_admin_password, Server, token_answer, auth_login, auth_change_password,
  validate_session,
}
use bagualu.Auth.Sessions.{
  Use, created, validated, revoked, after_uses, validate_session-after_uses,
}
use bagualu.Auth.Passwords.{change_password-login}

abbrev hash : String → String
hash p = if p == "old-secret" then "a1" else if p == "new-secret" then "b2" else "c3"

differs : (s : String) → (s == "") ≡ false → s ≢ ""
differs s e = λ same. let iff = str_eq_iff s "" in absurd (ground arith)

hash_some : (p : String) → hash p ≢ ""
hash_some p = elim (Bool-cases (p == "old-secret")) [
  | inl e ↦ rw e (differs "a1" refl)
  | inr e ↦ rw e (elim (Bool-cases (p == "new-secret")) [
    | inl f ↦ rw f (differs "b2" refl)
    | inr f ↦ rw f (differs "c3" refl)
  ])
]

abbrev new_secret : String
new_secret = "new-secret"

abbrev server : Server
server = record { has_store = true; password_hash = "a1"; sessions = λ t. none }

abbrev changed_server : Server
changed_server = record { has_store = true; password_hash = "b2"; sessions = λ t. none }

change_password-login_example :
    (hash "old-secret" ≡ "a1")
    × (changed_server.sessions ≡ server.sessions)
    × (((auth_login hash 7 "t1" (some "new-secret") changed_server).0 ≡ token_answer "t1")
        ↔ ((new_secret ≢ "") × (hash "new-secret" ≡ hash "new-secret")))
unfolding auth_change_password
change_password-login_example =
    change_password-login hash hash_some true "old-secret" "new-secret" "new-secret" 7 "t1" server
      refl

told_names :
    (auth_me none server ≡ "admin")
    × ((auth_me (some "root") server ≡ "root") × (auth_me (some "") server ≡ "admin"))
unfolding auth_me
told_names = (refl, (refl, refl))

refused_reset :
    (reset_admin_password hash (λ p. 7) none "secret7" server).0
    ≡ some "password must be at least 8 characters"
unfolding reset_admin_password
refused_reset = refl

abbrev history : List Use
history = validated 40 "t1" ∷ revoked 30 "t2" ∷ created 20 "t2" ∷ created 10 "t1" ∷ []

validate_session-after_uses_example : (validate_session 50 "t1" (after_uses history)).0 ≡ true
validate_session-after_uses_example =
    validate_session-after_uses 50 "t1" history
      (omega arith, (omega arith, (omega arith, (omega arith, tt))))
