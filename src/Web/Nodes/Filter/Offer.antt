-- ===== src/Web/Nodes/Filter/Offer.antt =====
-- The filters and the offered regions of Nodes.
use bagualu.Base.{
  String, ◌≡◌, refl, ap, ◌∙◌, ◌≢◌, inl, inr, Bool, true, false, not, ◌&&◌, ◌||◌, Option, none, some,
  List, [], ◌∷◌, ◌++◌, arith, ◌==◌, nat_eq, string_eq, str_eq_iff, Bool-cases,
}
use bagualu.Web.Nodes.Filter.{
  Row, Filters, text_of, is_text, is_visible, visible_rows, has_text, region_set, insert, sort,
  regions,
}

-- Some row is of the region `s`.
abbrev pub has_region : String → List Row → Bool
has_region s [] = false
has_region s (r ∷ rows) = is_text r.region s || has_region s rows

abbrev pub Distinct : List String → Type 0
Distinct [] = Unit
Distinct (t ∷ ts) = (has_text t ts ≡ false) × Distinct ts

has_text-append :
    (s : String) (ts us : List String) → has_text s (ts ++ us) ≡ (has_text s ts || has_text s us)
unfolding has_text
has_text-append s [] us = refl
has_text-append s (t ∷ ts) us = ground (arith, has_text-append s ts us)

Distinct-snoc :
    (ts : List String) (s : String) → Distinct ts → has_text s ts ≡ false → Distinct (ts ++ s ∷ [])
unfolding has_text
Distinct-snoc [] s d h = (refl, tt)
Distinct-snoc (t ∷ ts) s (fresh, d) h = (
  ground (arith, has_text-append t ts (s ∷ []), str_eq_iff s t, str_eq_iff t s),
  Distinct-snoc ts s d (ground arith),
)

region_set-Distinct :
    (seen : List String) (rows : List Row) → Distinct seen → Distinct (region_set seen rows)
unfolding region_set
region_set-Distinct seen [] d = d
region_set-Distinct seen (r ∷ rows) d =
    elim (Bool-cases (text_of r.region == "" || has_text (text_of r.region) seen)) [
      | inl old ↦ rw old (region_set-Distinct seen rows d)
      | inr new ↦
          rw new
            (region_set-Distinct _ rows (Distinct-snoc seen (text_of r.region) d (ground arith)))
    ]

old_region :
    (s : String) (o : Option String) (seen : List String) (b : Bool)
    → (text_of o == "" || has_text (text_of o) seen) ≡ true
    → (has_text s seen || (not (s == "") && b))
      ≡ (has_text s seen || (not (s == "") && (is_text o s || b)))
old_region s none seen b h = refl
old_region s (some t) seen b h = ground (arith, str_eq_iff t s, str_eq_iff t "", str_eq_iff s "")

new_region :
    (s : String) (o : Option String) (seen : List String) (b : Bool)
    → (text_of o == "" || has_text (text_of o) seen) ≡ false
    → (has_text s (seen ++ text_of o ∷ []) || (not (s == "") && b))
      ≡ (has_text s seen || (not (s == "") && (is_text o s || b)))
unfolding has_text
new_region s none seen b h = absurd (ground (arith, str_eq_iff "" ""))
new_region s (some t) seen b h =
    ground
      (arith, has_text-append s seen (t ∷ []), str_eq_iff t s, str_eq_iff t "", str_eq_iff s "")

has_text-region_set :
    (s : String) (seen : List String) (rows : List Row)
    → has_text s (region_set seen rows) ≡ (has_text s seen || (not (s == "") && has_region s rows))
unfolding region_set
has_text-region_set s seen [] = ground arith
has_text-region_set s seen (r ∷ rows) =
    elim (Bool-cases (text_of r.region == "" || has_text (text_of r.region) seen)) [
      | inl old ↦
          rw old
            (has_text-region_set s seen rows ∙ old_region s r.region seen (has_region s rows) old)
      | inr new ↦
          rw new (has_text-region_set s _ rows ∙ new_region s r.region seen (has_region s rows) new)
    ]

module _ (before : String → String → Bool) where
  has_text-insert :
      (s t : String) (ts : List String)
      → has_text s (insert before t ts) ≡ (t == s || has_text s ts)
  unfolding insert has_text
  has_text-insert s t [] = refl
  has_text-insert s t (u ∷ us) = ground (arith, has_text-insert s t us)

  insert-Distinct :
      (t : String) (ts : List String)
      → has_text t ts ≡ false
      → Distinct ts
      → Distinct (insert before t ts)
  unfolding insert has_text
  insert-Distinct t [] h d = (refl, tt)
  insert-Distinct t (u ∷ us) h (fresh, d) = ground (
    arith,
    has_text-insert u t us,
    insert-Distinct t us (ground arith) d,
    str_eq_iff t u,
    str_eq_iff u t,
  )

  has_text-sort : (s : String) (ts : List String) → has_text s (sort before ts) ≡ has_text s ts
  unfolding sort has_text
  has_text-sort s [] = refl
  has_text-sort s (t ∷ ts) =
      has_text-insert s t (sort before ts) ∙ ap (λ b. t == s || b) (has_text-sort s ts)

  sort-Distinct : (ts : List String) → Distinct ts → Distinct (sort before ts)
  unfolding sort
  sort-Distinct [] d = tt
  sort-Distinct (t ∷ ts) (fresh, d) =
      insert-Distinct t (sort before ts) (has_text-sort t ts ∙ fresh) (sort-Distinct ts d)

  -- The regions on offer are those of the rows, each once, without the empty one.
  pub regions-of_rows :
      (rows : List Row)
      → Distinct (regions before rows)
        × ((s : String) → has_text s (regions before rows) ≡ (not (s == "") && has_region s rows))
  unfolding regions
  regions-of_rows rows = (
    sort-Distinct (region_set [] rows) (region_set-Distinct [] rows tt),
    λ s.
        has_text-sort s (region_set [] rows)
        ∙ has_text-region_set s [] rows
        ∙ (unfold has_text in refl),
  )

abbrev pub by_region : String → Filters
by_region s = record { search = ""; status = ""; region = s }

visible_rows-region :
    (lower : String → String) (s : String) (rows : List Row)
    → has_region s rows ≡ true
    → visible_rows lower (by_region s) rows ≢ []
unfolding visible_rows is_visible
visible_rows-region lower s [] h = cc
visible_rows-region lower s (r ∷ rows) h = ground (arith, visible_rows-region lower s rows)

-- Choosing an offered region, with no search and no status, shows at least one row.
pub regions-visible :
    (lower : String → String) (before : String → String → Bool) (rows : List Row) (s : String)
    → has_text s (regions before rows) ≡ true
    → visible_rows lower (by_region s) rows ≢ []
regions-visible lower before rows s h =
    visible_rows-region lower s rows (ground (arith, (regions-of_rows before rows).1 s))
