-- ===== src/Resource/Tests.antt =====
-- Four nodes, with whole numbers for the scores.
use bagualu.Base.{
  ℕ, ◌≤◌, String, ◌≡◌, refl, ◌⊎◌, true, false, not, Option, none, some, List, [], ◌∷◌, ltb, ◌==◌,
  nat_eq, string_eq, length, All,
}
use bagualu.Resource.{Floats, Filter, Node, Score, select_with_reasons, judge}
use bagualu.Resource.Offered.{select_with_reasons-IsOffered, IsOffered}
use bagualu.Resource.Distinct.{select_with_reasons-bounded, Distinct}

abbrev naturals : Floats ℕ
naturals = record {
  lt = ltb;
  ne = λ a b. not (a == b);
  sixty = 60;
  text_lt = λ s t. false;
  to_lower = λ s. s;
}

abbrev rated : ℕ → Option (Score ℕ)
rated n =
    some (record { latency = n; speed = n; availability = n; overall = n; status = "recommended" })

abbrev node : String → String → Option (Score ℕ) → Node ℕ
node i ip score = record {
  id = i;
  name = i;
  protocol = "vless";
  region = "JP";
  endpoint_ip = ip;
  status = "active";
  score = score;
}

abbrev nodes : List (Node ℕ)
nodes =
    node "a" "1.1.1.1" (rated 70)
    ∷ node "b" "1.1.1.1" (rated 90)
    ∷ node "c" "" none
    ∷ node "d" "2.2.2.2" (rated 80)
    ∷ []

abbrev filter : Filter ℕ
filter = record {
  protocol = "";
  region = "JP";
  tag = "";
  sort = "";
  min_score = 0;
  limit = 1;
  one_per_endpoint_ip = true;
}

abbrev best : Node ℕ × Score ℕ
best = (
  node "b" "1.1.1.1" (rated 90),
  record { latency = 90; speed = 90; availability = 90; overall = 90; status = "recommended" },
)

result : select_with_reasons naturals filter nodes ≡ (
  best ∷ [],
  record { node_id = "c"; reason = "score_below_minimum_or_unrated" }
      ∷ record { node_id = "a"; reason = "duplicate_endpoint_ip" }
      ∷ record { node_id = "d"; reason = "node_limit" }
      ∷ [],
)
unfolding select_with_reasons judge
result = refl

select_with_reasons-IsOffered_example :
    All (IsOffered naturals filter) (select_with_reasons naturals filter nodes).0
select_with_reasons-IsOffered_example = select_with_reasons-IsOffered naturals filter nodes

select_with_reasons-bounded_example :
    ((true ≡ false) ⊎ Distinct (select_with_reasons naturals filter nodes).0)
    × ((filter.limit ≡ 0) ⊎ (length (select_with_reasons naturals filter nodes).0 ≤ 1))
select_with_reasons-bounded_example = select_with_reasons-bounded naturals filter nodes
