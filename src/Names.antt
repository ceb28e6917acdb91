-- ===== src/Names.antt =====
-- uniqueName of internal/modules/subscription_output/render.go: the names of the nodes in a rendered
-- subscription. `suffix` is fmt.Sprintf("%s-%d", …), and `used` holds the keys of the map.
mod Tests
mod Pigeons
pub mod Fresh
use bagualu.Base.{
  ℕ, zero, suc, ◌+◌, String, Bool, false, ◌||◌, Option, none, some, List, [], ◌∷◌, ◌==◌, nat_eq,
  string_eq, if◌then◌else◌, length,
}

pub is_used : String → List String → Bool
is_used name [] = false
is_used name (u ∷ used) = (u == name) || is_used name used

module _ (suffix : String → ℕ → String) where
  -- The loop: `none` is out of fuel.
  pub search_name : ℕ → List String → String → String → ℕ → Option String
  unfolding is_used
  search_name zero used base name i = none
  search_name (suc fuel) used base name i =
      let later = search_name fuel used base (suffix base i) (i + 1) in
      if is_used name used then later else some name

  abbrev pub or_proxy : String → String
  or_proxy name = if name == "" then "proxy" else name

  noted : List String → Option String → Option (String × List String)
  noted used none = none
  noted used (some name) = some (name, name ∷ used)

  -- uniqueName, with fuel for one test more than there are used names: the name, and the used names
  -- with it.
  pub unique_name : List String → String → Option (String × List String)
  unfolding search_name noted
  unique_name used name =
      noted used (search_name (length used + 1) used (or_proxy name) (or_proxy name) 2)

  more : Option (List String) → String → Option (List String)
  more none name = none
  more (some names) name = some (name ∷ names)

  -- The names that a renderer gives to its nodes, one after the other.
  named_on :
      Option (String × List String) → (List String → Option (List String)) → Option (List String)
  unfolding more
  named_on none rest = none
  named_on (some (name, used)) rest = more (rest used) name

  pub unique_names : List String → List String → Option (List String)
  unfolding named_on unique_name
  unique_names used [] = some []
  unique_names used (name ∷ names) =
      named_on (unique_name used name) (λ used'. unique_names used' names)
