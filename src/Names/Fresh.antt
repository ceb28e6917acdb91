-- ===== src/Names/Fresh.antt =====
-- That uniqueName of internal/modules/subscription_output/render.go ends, and what it gives.
use bagualu.Base.{
  ℕ, zero, suc, ◌+◌, ◌≤◌, String, ◌≡◌, refl, sym, ap, ◌≢◌, inl, inr, true, false, Option, none,
  some, List, [], ◌∷◌, arith, Bool-cases, Option-cases, length, All,
}
use bagualu.Names.{is_used, search_name, unique_name, unique_names, noted, named_on, more, or_proxy}
use mathlib.Core.Option.{some-injective}
use bagualu.Names.Pigeons.{Distinct, Distinct-length, unused-cons}

-- What the names of a subscription must be: as many as the nodes, none used before, none twice.
abbrev pub IsNaming : List String → List String → Option (List String) → Type 0
IsNaming used names o =
    (given : List String) × (o ≡ some given)
    × (length given ≡ length names)
    × All (λ n. is_used n used ≡ false) given
    × Distinct given

module _ (suffix : String → ℕ → String)
    (suffix_injective : (base : String) (i j : ℕ) → suffix base i ≡ suffix base j → i ≡ j)
    (suffix_differs : (base : String) (i : ℕ) → suffix base i ≢ base) where
  tried : ℕ → String → String → ℕ → List String
  tried zero base name i = []
  tried (suc k) base name i = name ∷ tried k base (suffix base i) (i + 1)

  length-tried : (k : ℕ) (base name : String) (i : ℕ) → length (tried k base name i) ≡ k
  unfolding tried
  length-tried zero base name i = refl
  length-tried (suc k) base name i = ap suc (length-tried k base (suffix base i) (i + 1))

  abbrev Later : String → String → ℕ → Type 0
  Later base name i = (j : ℕ) → i ≤ j → suffix base j ≢ name

  tried-avoids :
      (k : ℕ) (base name : String) (i : ℕ)
      → Later base name i
      → All (λ e. e ≢ name) (tried k base (suffix base i) (i + 1))
  unfolding tried
  tried-avoids zero base name i h = tt
  tried-avoids (suc k) base name i h =
      (h i (omega arith), tried-avoids k base name (i + 1) (λ j le. h j (omega arith)))

  tried-Distinct :
      (k : ℕ) (base name : String) (i : ℕ) → Later base name i → Distinct (tried k base name i)
  unfolding tried
  tried-Distinct zero base name i h = tt
  tried-Distinct (suc k) base name i h = (
    tried-avoids k base name i h,
    tried-Distinct k base (suffix base i) (i + 1)
        (λ j le e. let same = suffix_injective base j i e in absurd (omega arith)),
  )

  search_name-none :
      (k : ℕ) (used : List String) (base name : String) (i : ℕ)
      → search_name suffix k used base name i ≡ none
      → All (λ e. is_used e used ≡ true) (tried k base name i)
  unfolding tried search_name
  search_name-none zero used base name i = λ h. tt
  search_name-none (suc k) used base name i = elim (Bool-cases (is_used name used)) [
    | inl e ↦ rw e (λ h. (refl, search_name-none k used base (suffix base i) (i + 1) h))
    | inr e ↦ rw e (λ h. absurd (cc h))
  ]

  search_name-some :
      (k : ℕ) (used : List String) (base name : String) (i : ℕ) (n : String)
      → search_name suffix k used base name i ≡ some n
      → is_used n used ≡ false
  unfolding search_name
  search_name-some zero used base name i n = λ h. absurd (cc h)
  search_name-some (suc k) used base name i n = elim (Bool-cases (is_used name used)) [
    | inl e ↦ rw e (search_name-some k used base (suffix base i) (i + 1) n)
    | inr e ↦ rw e (λ h. rw (sym (some-injective _ _ h)) e)
  ]

  abbrev IsFresh : List String → Option (String × List String) → Type 0
  IsFresh used o = (n : String) × (o ≡ some (n, n ∷ used)) × (is_used n used ≡ false)

  unique_name-IsFresh :
      (used : List String) (name : String) → IsFresh used (unique_name suffix used name)
  unfolding unique_name noted
  unique_name-IsFresh used name =
      let base = or_proxy suffix name in
      elim (Option-cases (search_name suffix (length used + 1) used base base 2)) [
        | inr (n, e) ↦ (n, rw e refl, search_name-some (length used + 1) used base base 2 n e)
        | inl e ↦
            let crowd =
              Distinct-length (tried (length used + 1) base base 2) used
                (tried-Distinct (length used + 1) base base 2 (λ j le. suffix_differs base j))
                (search_name-none (length used + 1) used base base 2 e) in
            absurd (omega (arith, crowd, length-tried (length used + 1) base base 2))
      ]

  -- Naming any nodes ends and gives each its own name: as many names as nodes, none of them used
  -- before, and no two equal, if the suffixes of a base differ from it and from each other.
  pub unique_names-IsNaming :
      (names used : List String) → IsNaming used names (unique_names suffix used names)
  unfolding unique_names named_on more
  unique_names-IsNaming [] used = ([], refl, refl, tt, tt)
  unique_names-IsNaming (name ∷ names) used =
      let (n, is, fresh) = unique_name-IsFresh used name in
      let (given, gives, same, unused, distinct) = unique_names-IsNaming names (n ∷ used) in
      let apart = unused-cons n used given unused in
      (n ∷ given, rw is (rw gives refl), ap suc same, (fresh, apart.0), (apart.1, distinct))
