-- ===== src/Base/Sublists.antt =====
-- Lists in order within another, and how often a test holds on a list.
use Prim.Native.Nat.{ℕ, ◌+◌}
use mathlib.Core.Path.{◌≡◌, refl, ap}
use mathlib.Core.Bool.{Bool}
use mathlib.Core.List.{List, [], ◌∷◌, ◌++◌}
use native.Mathlib.Omega.{arith}
use bagualu.Base.Tests.{if◌then◌else◌}

module _ {ℓ} {A : Type ℓ} where
  -- `Sublist xs ys`: the members of xs are members of ys, in the same order.
  pub data Sublist : List A → List A → Type ℓ where
    stop : Sublist [] []
    keep : {xs ys : List A} (x : A) → Sublist xs ys → Sublist (x ∷ xs) (x ∷ ys)
    skip : {xs ys : List A} (y : A) → Sublist xs ys → Sublist xs (y ∷ ys)

  pub Sublist-snoc :
      {xs ys : List A} (x : A) → Sublist xs ys → Sublist (xs ++ (x ∷ [])) (ys ++ (x ∷ []))
  Sublist-snoc x stop = keep x stop
  Sublist-snoc x (keep y s) = keep y (Sublist-snoc x s)
  Sublist-snoc x (skip y s) = skip y (Sublist-snoc x s)

  pub Sublist-refl : (xs : List A) → Sublist xs xs
  Sublist-refl [] = stop
  Sublist-refl (x ∷ xs) = keep x (Sublist-refl xs)

  pub Sublist-trans :
      {ys zs : List A} → Sublist ys zs → {xs : List A} → Sublist xs ys → Sublist xs zs
  Sublist-trans stop s = s
  Sublist-trans (skip z t) s = skip z (Sublist-trans t s)
  Sublist-trans (keep x t) (keep _ s) = keep x (Sublist-trans t s)
  Sublist-trans (keep x t) (skip _ s) = skip x (Sublist-trans t s)

  pub Sublist-append :
      (xs : List A) {ys zs : List A} → Sublist ys zs → Sublist (xs ++ ys) (xs ++ zs)
  Sublist-append [] s = s
  Sublist-append (x ∷ xs) s = keep x (Sublist-append xs s)

  pub append_assoc : (xs ys zs : List A) → (xs ++ ys) ++ zs ≡ xs ++ (ys ++ zs)
  append_assoc [] ys zs = refl
  append_assoc (x ∷ xs) ys zs = ap (λ l. x ∷ l) (append_assoc xs ys zs)

  pub append-nil : (xs : List A) → xs ++ [] ≡ xs
  append-nil [] = refl
  append-nil (x ∷ xs) = ap (λ l. x ∷ l) (append-nil xs)

  abbrev pub count : (A → Bool) → List A → ℕ
  count p [] = 0
  count p (x ∷ xs) = (if p x then 1 else 0) + count p xs

  pub count-append : (p : A → Bool) (xs ys : List A) → count p (xs ++ ys) ≡ count p xs + count p ys
  count-append p [] ys = omega arith
  count-append p (x ∷ xs) ys = omega (arith, count-append p xs ys)
