-- ===== src/Names/Pigeons.antt =====
-- Distinct texts among the used names of internal/modules/subscription_output/render.go.
use bagualu.Base.{
  suc, ◌≤◌, String, ◌≡◌, refl, sym, ap, ◌∙◌, ◌≢◌, inl, inr, true, false, List, [], ◌∷◌, arith, ◌==◌,
  nat_eq, string_eq, str_eq_iff, if◌then◌else◌, Bool-cases, length, All,
}
use bagualu.Names.{is_used}

abbrev pub Distinct : List String → Type 0
Distinct [] = Unit
Distinct (d ∷ ds) = All (λ e. e ≢ d) ds × Distinct ds

remove : String → List String → List String
remove x [] = []
remove x (y ∷ l) = if y == x then l else y ∷ remove x l

length-remove :
    (x : String) (l : List String) → is_used x l ≡ true → suc (length (remove x l)) ≡ length l
unfolding remove is_used
length-remove x [] = λ h. absurd (cc h)
length-remove x (y ∷ l) = elim (Bool-cases (y == x)) [
  | inl e ↦ rw e (λ h. refl)
  | inr e ↦ rw e (λ h. ap suc (length-remove x l h))
]

is_used-remove :
    (x y : String) (l : List String) → y ≢ x → is_used y l ≡ true → is_used y (remove x l) ≡ true
unfolding remove is_used
is_used-remove x y [] other = λ h. h
is_used-remove x y (z ∷ l) other =
    let zx = str_eq_iff z x in
    let zy = str_eq_iff z y in
    elim (Bool-cases (z == x)) [
      | inl e ↦ rw e (λ h. elim (Bool-cases (z == y)) [
        | inl f ↦ absurd (other (sym (zy.0 f) ∙ zx.0 e))
        | inr f ↦ rw f at h
      ])
      | inr e ↦ rw e (elim (Bool-cases (z == y)) [
        | inl f ↦ rw f (λ h. refl)
        | inr f ↦ rw f (is_used-remove x y l other)
      ])
    ]

All-remove :
    (x : String) (ds l : List String)
    → All (λ e. e ≢ x) ds
    → All (λ e. is_used e l ≡ true) ds
    → All (λ e. is_used e (remove x l) ≡ true) ds
All-remove x [] l other used = tt
All-remove x (d ∷ ds) l other used =
    (is_used-remove x d l other.0 used.0, All-remove x ds l other.1 used.1)

-- Distinct texts that are all used are at most as many as the used ones.
pub Distinct-length :
    (ds l : List String) → Distinct ds → All (λ e. is_used e l ≡ true) ds → length ds ≤ length l
Distinct-length [] l d used = omega arith
Distinct-length (x ∷ ds) l d used =
    let fewer = Distinct-length ds (remove x l) d.1 (All-remove x ds l d.0 used.1) in
    omega (arith, fewer, length-remove x l used.0)

-- A text that is not used beside `x` is not used, and is not `x`.
pub unused-cons :
    (x : String) (used l : List String)
    → All (λ e. is_used e (x ∷ used) ≡ false) l
    → All (λ e. is_used e used ≡ false) l × All (λ e. e ≢ x) l
unfolding is_used
unused-cons x used [] h = (tt, tt)
unused-cons x used (e ∷ l) h =
    let rest = unused-cons x used l h.1 in
    let iff = str_eq_iff x e in
    let head = h.0 in ((ground arith, rest.0), ((λ same. absurd (ground arith)), rest.1))
