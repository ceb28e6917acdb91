-- ===== src/Web/Nodes/Filter/Tests.antt =====
-- The regions and rows of a small table.
use bagualu.Base.{String, ◌≡◌, refl, ◌≢◌, Bool, false, Option, none, some, List, [], ◌∷◌}
use bagualu.Web.Nodes.Filter.{Row, visible_rows, regions, has_text}
use bagualu.Web.Nodes.Filter.Offer.{regions-visible, by_region}

abbrev row_in : Option String → Row
row_in region = record {
  name = some "n";
  address = none;
  endpoint_ip = none;
  protocol = some "ss";
  status = some "active";
  region = region;
}

abbrev rows : List Row
rows = row_in (some "JP") ∷ row_in none ∷ row_in (some "JP") ∷ row_in (some "US") ∷ []

abbrev as_listed : String → String → Bool
as_listed s t = false

offered : regions as_listed rows ≡ "JP" ∷ "US" ∷ []
unfolding regions has_text
offered = refl

regions-visible_example : visible_rows (λ s. s) (by_region "US") rows ≢ []
unfolding regions has_text
regions-visible_example = regions-visible (λ s. s) as_listed rows "US" refl
