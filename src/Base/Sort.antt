-- ===== src/Base/Sort.antt =====
-- A stable sort by insertion, which stands for sort.SliceStable of Go: each element goes before the
-- elements that follow it and are not less.
use Prim.Native.Nat.{ℕ, zero, suc}
use mathlib.Core.Path.{◌≡◌}
use mathlib.Core.Logic.{inl, inr}
use mathlib.Core.Bool.{Bool, true, false}
use mathlib.Core.List.{List, [], ◌∷◌}
use bagualu.Base.Lists.{All, take}
use bagualu.Base.Tests.{if◌then◌else◌, Bool-cases}

module _ {ℓ} {A : Type ℓ} (lt : A → A → Bool) where
  unfoldable pub insert : A → List A → List A
  insert x [] = x ∷ []
  insert x (y ∷ ys) = let rest = insert x ys in if lt y x then y ∷ rest else x ∷ y ∷ ys

  unfoldable pub stable_sort : List A → List A
  unfolding insert
  stable_sort [] = []
  stable_sort (x ∷ xs) = insert x (stable_sort xs)

  module _ {κ} (P : A → Type κ) where
    insert-All : (x : A) (l : List A) → P x → All P l → All P (insert x l)
    unfolding insert
    insert-All x [] px each = (px, tt)
    insert-All x (y ∷ ys) px each = elim (Bool-cases (lt y x)) [
      | inl e ↦ rw e (each.0, insert-All x ys px each.1)
      | inr e ↦ rw e (px, each)
    ]

    pub stable_sort-All : (l : List A) → All P l → All P (stable_sort l)
    unfolding stable_sort
    stable_sort-All [] each = tt
    stable_sort-All (x ∷ l) each = insert-All x (stable_sort l) each.0 (stable_sort-All l each.1)

  -- No element is less than the one before it.
  abbrev pub Leads : A → List A → Type 0
  Leads x [] = Unit
  Leads x (y ∷ l) = lt y x ≡ false

  abbrev pub IsSorted : List A → Type 0
  IsSorted [] = Unit
  IsSorted (x ∷ l) = Leads x l × IsSorted l

  Leads-take : (n : ℕ) (x : A) (l : List A) → Leads x l → Leads x (take n l)
  Leads-take zero x l h = tt
  Leads-take (suc n) x [] h = tt
  Leads-take (suc n) x (y ∷ l) h = h

  pub IsSorted-take : (n : ℕ) (l : List A) → IsSorted l → IsSorted (take n l)
  IsSorted-take zero l s = tt
  IsSorted-take (suc n) [] s = tt
  IsSorted-take (suc n) (x ∷ l) s = (Leads-take n x l s.0, IsSorted-take n l s.1)

  Leads-insert : (y x : A) (l : List A) → lt x y ≡ false → Leads y l → Leads y (insert x l)
  unfolding insert
  Leads-insert y x [] h k = h
  Leads-insert y x (z ∷ l) h k = elim (Bool-cases (lt z x)) [ inl e ↦ rw e k | inr e ↦ rw e h ]

  module _ (apart : (x y : A) → lt y x ≡ true → lt x y ≡ false) where
    insert-IsSorted : (x : A) (l : List A) → IsSorted l → IsSorted (insert x l)
    unfolding insert
    insert-IsSorted x [] s = (tt, tt)
    insert-IsSorted x (y ∷ l) s = elim (Bool-cases (lt y x)) [
      | inl e ↦ rw e (Leads-insert y x l (apart x y e) s.0, insert-IsSorted x l s.1)
      | inr e ↦ rw e (e, s)
    ]

    pub stable_sort-IsSorted : (l : List A) → IsSorted (stable_sort l)
    unfolding stable_sort
    stable_sort-IsSorted [] = tt
    stable_sort-IsSorted (x ∷ l) = insert-IsSorted x (stable_sort l) (stable_sort-IsSorted l)
