-- ===== src/Names/Tests.antt =====
-- Three nodes of which two have the same name. The suffix of number i is i dashes and one more.
use bagualu.Base.{ℕ, zero, suc, ◌+◌, String, ◌≡◌, refl, ap, ◌≢◌, Option, some, List, [], ◌∷◌, arith}
use Prim.Native.String.{◌++◌ as join, count as size}
use text.Mathlib.TextLemmas.{length-append}
use bagualu.Names.{unique_names}
use bagualu.Names.Fresh.{IsNaming, unique_names-IsNaming}

abbrev dashes : ℕ → String
dashes zero = "-"
dashes (suc n) = join "-" (dashes n)

abbrev dashed : String → ℕ → String
dashed base i = join base (dashes i)

size-dashes : (n : ℕ) → size (dashes n) ≡ n + 1
size-dashes zero = refl
size-dashes (suc n) = omega (arith, length-append "-" (dashes n), size-dashes n)

size-dashed : (base : String) (i : ℕ) → size (dashed base i) ≡ size base + (i + 1)
size-dashed base i = omega (arith, length-append base (dashes i), size-dashes i)

dashed_injective : (base : String) (i j : ℕ) → dashed base i ≡ dashed base j → i ≡ j
dashed_injective base i j e = omega (arith, ap size e, size-dashed base i, size-dashed base j)

dashed_differs : (base : String) (i : ℕ) → dashed base i ≢ base
dashed_differs base i e = absurd (omega (arith, ap size e, size-dashed base i))

abbrev given : Option (List String)
given = some ("JP" ∷ "JP---" ∷ "proxy" ∷ [])

unique_names-IsNaming_example : IsNaming [] ("JP" ∷ "JP" ∷ "" ∷ []) given
unfolding unique_names
unique_names-IsNaming_example =
    unique_names-IsNaming dashed dashed_injective dashed_differs ("JP" ∷ "JP" ∷ "" ∷ []) []
