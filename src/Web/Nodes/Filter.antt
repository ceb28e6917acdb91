-- ===== src/Web/Nodes/Filter.antt =====
-- Which rows and which regions Nodes of web/admin/src/main.tsx shows.
mod Tests
pub mod Offer
use Prim.Native.String.{◌++◌ as join}
use text.Mathlib.Text.{find?}
use bagualu.Base.{
  ℕ, String, Bool, true, false, ◌&&◌, ◌||◌, Option, none, some, List, [], ◌∷◌, ◌++◌, ◌==◌, nat_eq,
  string_eq, if◌then◌else◌,
}

-- A row of /nodes; `none` where the field is missing.
pub record Row : Type 0 where
  pub name : Option String
  pub address : Option String
  pub endpoint_ip : Option String
  pub protocol : Option String
  pub status : Option String
  pub region : Option String

-- String(value || "")
abbrev pub text_of : Option String → String
text_of none = ""
text_of (some s) = s

-- value === text
abbrev pub is_text : Option String → String → Bool
is_text none t = false
is_text (some s) t = s == t

abbrev found : Option ℕ → Bool
found none = false
found (some at) = true

-- s.includes(t)
abbrev pub includes : String → String → Bool
includes s t = found (find? s t)

pub record Filters : Type 0 where
  pub search : String
  pub status : String
  pub region : String

abbrev row_text : Row → String
row_text r =
    join
      (join (join (join (text_of r.name) " ") (join (text_of r.address) " "))
        (join (text_of r.endpoint_ip) " "))
      (text_of r.protocol)

-- `lower` is toLowerCase, `before` the order of Array.prototype.sort on texts.
module _ (lower : String → String) where
  pub is_visible : Filters → Row → Bool
  is_visible f r =
      (f.search == "" || includes (lower (row_text r)) (lower f.search))
      && (f.status == "" || is_text r.status f.status)
      && (f.region == "" || is_text r.region f.region)

  pub visible_rows : Filters → List Row → List Row
  visible_rows f [] = []
  visible_rows f (r ∷ rows) =
      let rest = visible_rows f rows in if is_visible f r then r ∷ rest else rest

pub has_text : String → List String → Bool
has_text s [] = false
has_text s (t ∷ ts) = t == s || has_text s ts

-- new Set(rows.map((row) => String(row.region || "")).filter(Boolean)), in the order of a first
-- appearance; `seen` is the set so far.
region_set : List String → List Row → List String
region_set seen [] = seen
region_set seen (r ∷ rows) =
    region_set
      (if text_of r.region == "" || has_text (text_of r.region) seen
        then seen
        else seen ++ text_of r.region ∷ [])
      rows

module _ (before : String → String → Bool) where
  insert : String → List String → List String
  insert s [] = s ∷ []
  insert s (t ∷ ts) = if before t s then t ∷ insert s ts else s ∷ t ∷ ts

  sort : List String → List String
  sort [] = []
  sort (s ∷ ss) = insert s (sort ss)

  pub regions : List Row → List String
  unfolding region_set sort insert
  regions rows = sort (region_set [] rows)
