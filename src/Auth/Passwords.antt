-- ===== src/Auth/Passwords.antt =====
-- The password of internal/transport/http/auth.go.
use bagualu.Base.{
  ℕ, ◌≤◌, String, ◌≡◌, refl, ◌≢◌, ◌↔◌, inl, inr, Bool, true, false, ◌||◌, Option, none, some, arith,
  ltb, ◌==◌, nat_eq, string_eq, str_eq_iff, Bool-cases, Option-cases,
}
use bagualu.Auth.{
  Server, token_answer, ok_answer, auth_login, auth_change_password, reset_admin_password,
}

module _ (hash_password : String → String) (hash_some : (p : String) → hash_password p ≢ "") where
  changed :
      (saved : Bool) (old new : String) (s : Server)
      → (auth_change_password hash_password saved (some (old, new)) s).0 ≡ ok_answer
      → (s.has_store ≡ true)
        × (hash_password old ≡ s.password_hash)
        × ((auth_change_password hash_password saved (some (old, new)) s).1
            ≡ record s { password_hash = hash_password new })
  unfolding auth_change_password
  changed saved old new s = elim (Bool-cases s.has_store) [
    | inr e ↦ simp e (λ ok. absurd (cc ok))
    | inl e ↦ simp e (elim (Bool-cases ((old == "") || (new == ""))) [
      | inl f ↦ simp f (λ ok. absurd (cc ok))
      | inr f ↦ simp f (elim (Bool-cases (s.password_hash == "")) [
        | inl g ↦ simp g (λ ok. absurd (cc ok))
        | inr g ↦ simp g (elim (Bool-cases (hash_password old == s.password_hash)) [
          | inr h ↦ simp h (λ ok. absurd (cc ok))
          | inl h ↦ simp h (elim (Bool-cases saved) [
            | inr k ↦ simp k (λ ok. absurd (cc ok))
            | inl k ↦
                simp k (λ ok. (refl, (str_eq_iff (hash_password old) s.password_hash).0 h, refl))
          ])
        ])
      ])
    ])
  ]

  login-token :
      (p : String) (now : ℕ) (fresh : String) (s : Server)
      → s.has_store ≡ true
      → s.password_hash ≢ ""
      → ((auth_login hash_password now fresh (some p) s).0 ≡ token_answer fresh)
        ↔ ((p ≢ "") × (hash_password p ≡ s.password_hash))
  unfolding auth_login
  login-token p now fresh s store known =
      let p1 = str_eq_iff p "" in
      let p2 = str_eq_iff (hash_password p) s.password_hash in
      let k1 = str_eq_iff s.password_hash "" in
      let unset : (s.password_hash == "") ≡ false = ground arith in
      simp (store, unset)
        (elim (Bool-cases (p == "")) [
          | inl e ↦ simp e ((λ h. absurd (cc h)), (λ h. absurd (h.0 (p1.0 e))))
          | inr e ↦ simp e (elim (Bool-cases (hash_password p == s.password_hash)) [
            | inl f ↦ simp f ((λ h. ((λ same. absurd (ground arith)), p2.0 f)), (λ h. refl))
            | inr f ↦ simp f ((λ h. absurd (cc h)), (λ h. absurd (ground arith)))
          ])
        ])

  -- A change of the password that succeeds needs the old one; from then on login gives a token
  -- exactly for the passwords with the hash of the new one, and an empty password is refused. The
  -- sessions stay as they were.
  pub change_password-login :
      (saved : Bool) (old new p : String) (now : ℕ) (fresh : String) (s : Server)
      → (auth_change_password hash_password saved (some (old, new)) s).0 ≡ ok_answer
      → let s' = (auth_change_password hash_password saved (some (old, new)) s).1 in
        (hash_password old ≡ s.password_hash)
        × (s'.sessions ≡ s.sessions)
        × (((auth_login hash_password now fresh (some p) s').0 ≡ token_answer fresh)
            ↔ ((p ≢ "") × (hash_password p ≡ hash_password new)))
  change_password-login saved old new p now fresh s ok =
      let c = changed saved old new s ok in
      let login =
        login-token p now fresh (record s { password_hash = hash_password new }) c.0
          (hash_some new) in
      (c.1, rw c.2 refl, rw c.2 login)

  reset :
      (bytes : String → ℕ) (failure : Option String) (new : String) (s : Server)
      → (reset_admin_password hash_password bytes failure new s).0 ≡ none
      → (s.has_store ≡ true)
        × (8 ≤ bytes new)
        × ((reset_admin_password hash_password bytes failure new s).1
            ≡ record s { password_hash = hash_password new })
  unfolding reset_admin_password
  reset bytes failure new s = elim (Bool-cases s.has_store) [
    | inr e ↦ simp e (λ done. absurd (cc done))
    | inl e ↦ simp e (elim (Bool-cases (ltb (bytes new) 8)) [
      | inl f ↦ simp f (λ done. absurd (cc done))
      | inr f ↦ simp f (elim (Option-cases failure) [
        | inr (x, g) ↦ simp g (λ done. absurd (cc done))
        | inl g ↦ simp g (λ done. (refl, ground arith, rw e refl))
      ])
    ])
  ]

  -- A reset that gives no error has a password of 8 bytes at least, and from then on login gives a
  -- token exactly for the passwords with its hash, whatever the old one was.
  pub reset_admin_password-login :
      (bytes : String → ℕ) (failure : Option String) (new p : String) (now : ℕ) (fresh : String)
      (s : Server)
      → (reset_admin_password hash_password bytes failure new s).0 ≡ none
      → let s' = (reset_admin_password hash_password bytes failure new s).1 in
        (8 ≤ bytes new)
        × (((auth_login hash_password now fresh (some p) s').0 ≡ token_answer fresh)
            ↔ ((p ≢ "") × (hash_password p ≡ hash_password new)))
  reset_admin_password-login bytes failure new p now fresh s done =
      let c = reset bytes failure new s done in
      let login =
        login-token p now fresh (record s { password_hash = hash_password new }) c.0
          (hash_some new) in
      (c.1, rw c.2 login)
