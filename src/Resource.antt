-- ===== src/Resource.antt =====
-- SelectWithReasons of internal/modules/resource/filter.go: the nodes that a resource offers, and
-- why the others are left out. The scores are floating-point numbers: their tests `<` and `!=` are
-- parameters, as is strings.ToLower.
mod Tests
pub mod Partition
pub mod Offered
pub mod Distinct
use mathlib.Core.Bool.{true}
use bagualu.Base.{
  ℕ, String, ◌⊎◌, inl, inr, Bool, true, false, not, ◌&&◌, ◌||◌, Option, none, some, List, [], ◌∷◌,
  ◌++◌, ltb, ◌==◌, nat_eq, string_eq, if◌then◌else◌, length, take, drop,
}
use bagualu.Base.Sort.{stable_sort}
use Prim.Native.String.{◌++◌ as join}
use text.Mathlib.Text.{find?}

pub record Score (F : Type 0) : Type 0 where
  pub latency : F
  pub speed : F
  pub availability : F
  pub overall : F
  pub status : String

pub record Node (F : Type 0) : Type 0 where
  pub id : String
  pub name : String
  pub protocol : String
  pub region : String
  pub endpoint_ip : String
  pub status : String
  pub score : Option (Score F)

-- A limit of at most 0 is none; it is a whole number of the source.
pub record Filter (F : Type 0) : Type 0 where
  pub protocol : String
  pub region : String
  pub tag : String
  pub sort : String
  pub min_score : F
  pub limit : ℕ
  pub one_per_endpoint_ip : Bool

pub record SkipReason : Type 0 where
  pub node_id : String
  pub reason : String

-- What the loop of the source needs of float64 and of package strings.
pub record Floats (F : Type 0) : Type 0 where
  pub lt : F → F → Bool
  pub ne : F → F → Bool
  pub sixty : F
  pub text_lt : String → String → Bool
  pub to_lower : String → String

abbrev pub is_some : {A : Type 0} → Option A → Bool
is_some none = false
is_some (some a) = true

-- strings.Contains
abbrev pub contains : String → String → Bool
contains s sub = is_some (find? s sub)

module _ {F : Type 0} where
  sorted_in :
      Node F
      → Score F ⊎ String
      → List (Node F × Score F) × List SkipReason
      → List (Node F × Score F) × List SkipReason
  sorted_in n (inl s) (selected, skipped) = ((n, s) ∷ selected, skipped)
  sorted_in n (inr reason) (selected, skipped) =
      (selected, record { node_id = n.id; reason = reason } ∷ skipped)

module _ {F : Type 0} (fl : Floats F) where
  -- filter.MinScore after the raise to 60
  abbrev pub effective : Filter F → F
  effective f = if fl.lt f.min_score fl.sixty then fl.sixty else f.min_score

  abbrev pub is_low : Filter F → Score F → Bool
  is_low f s = not (s.status == "recommended") || fl.lt s.overall (effective f)

  abbrev pub rated : Filter F → Option (Score F) → Score F ⊎ String
  rated f none = inr "score_below_minimum_or_unrated"
  rated f (some s) = if is_low f s then inr "score_below_minimum_or_unrated" else inl s

  abbrev pub mismatches : Filter F → Node F → Bool
  mismatches f n =
      (not (f.protocol == "") && not (n.protocol == f.protocol))
      || (not (f.region == "") && not (n.region == f.region))

  abbrev pub lacks_tag : Filter F → Node F → Bool
  lacks_tag f n = not (f.tag == "") && not (contains (fl.to_lower n.name) (fl.to_lower f.tag))

  -- One round of the first loop: the score of a selected node, or the reason of a skipped one.
  pub judge : Filter F → Node F → Score F ⊎ String
  judge f n =
      if not (n.status == "active")
      then inr (join "status_" n.status)
      else if mismatches f n
      then inr "filter_mismatch"
      else if lacks_tag f n
      then inr "tag_mismatch"
      else rated f n.score

  -- The first loop. A selected node travels with its score, which is not nil.
  pub judge_all : Filter F → List (Node F) → List (Node F × Score F) × List SkipReason
  unfolding sorted_in
  judge_all f [] = ([], [])
  judge_all f (n ∷ ns) = sorted_in n (judge f n) (judge_all f ns)

  -- The comparison of sort.SliceStable.
  pub less : Filter F → Node F × Score F → Node F × Score F → Bool
  less f (n, s) (m, t) =
      if f.sort == "name"
      then fl.text_lt n.name m.name
      else if (f.sort == "latency") && fl.ne s.latency t.latency
      then fl.lt s.latency t.latency
      else if (f.sort == "speed") && fl.ne s.speed t.speed
      then fl.lt t.speed s.speed
      else if fl.ne s.overall t.overall
      then fl.lt t.overall s.overall
      else if fl.ne s.availability t.availability
      then fl.lt t.availability s.availability
      else if fl.ne s.latency t.latency
      then fl.lt s.latency t.latency
      else if fl.ne s.speed t.speed
      then fl.lt t.speed s.speed
      else fl.text_lt n.id m.id

pub has_text : String → List String → Bool
has_text s [] = false
has_text s (t ∷ ts) = (t == s) || has_text s ts

module _ {F : Type 0} where
  passed :
      Bool
      → Node F × Score F
      → List (Node F × Score F) × List SkipReason
      → List (Node F × Score F) × List SkipReason
  passed true n (unique, skipped) =
      (unique, record { node_id = n.0.id; reason = "duplicate_endpoint_ip" } ∷ skipped)
  passed false n (unique, skipped) = (n ∷ unique, skipped)

  -- The loop over OnePerEndpointIP; `seen` holds the keys of the map.
  pub unique_ips : List String → List (Node F × Score F) → List (Node F × Score F) × List SkipReason
  unfolding has_text passed
  unique_ips seen [] = ([], [])
  unique_ips seen (n ∷ ns) =
      let key = n.0.endpoint_ip in
      let known = not (key == "") && has_text key seen in
      let later = unique_ips (if (key == "") || known then seen else key ∷ seen) ns in
      passed known n later

  over_limit : List (Node F × Score F) → List SkipReason
  over_limit [] = []
  over_limit (n ∷ ns) = record { node_id = n.0.id; reason = "node_limit" } ∷ over_limit ns

  pub limited : ℕ → List (Node F × Score F) → List (Node F × Score F) × List SkipReason
  unfolding over_limit
  limited limit l =
      if ltb 0 limit && ltb limit (length l)
      then (take limit l, over_limit (drop limit l))
      else (l, [])

  pub select_with_reasons :
      Floats F → Filter F → List (Node F) → List (Node F × Score F) × List SkipReason
  unfolding judge_all stable_sort less unique_ips limited
  select_with_reasons fl f nodes =
      let (rated, skipped) = judge_all fl f nodes in
      let sorted = stable_sort (less fl f) rated in
      let (unique, twice) = if f.one_per_endpoint_ip then unique_ips [] sorted else (sorted, []) in
      let (kept, over) = limited f.limit unique in (kept, skipped ++ (twice ++ over))
