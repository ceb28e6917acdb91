-- ===== src/Resource/Partition.antt =====
-- What internal/modules/resource/filter.go selects and what it leaves out.
use mathlib.Core.Bool.{true}
use bagualu.Base.{
  ℕ, zero, suc, ◌+◌, String, ◌≡◌, refl, ◌⊎◌, inl, inr, Bool, true, false, not, ◌&&◌, ◌||◌, List, [],
  ◌∷◌, ◌++◌, arith, ltb, ◌==◌, nat_eq, string_eq, if◌then◌else◌, Bool-cases, length, take, drop,
  count, count-append,
}
use bagualu.Base.Sort.{insert, stable_sort}
use bagualu.Resource.{
  Floats, Filter, Node, Score, SkipReason, judge, judge_all, sorted_in, unique_ips, passed, limited,
  over_limit, select_with_reasons, less, has_text,
}

abbrev pub skipped_of : (String → Bool) → List SkipReason → ℕ
skipped_of p l = count (λ s. p s.node_id) l

module _ {F : Type 0} (p : String → Bool) where
  -- How many of the nodes have an ID on which the test holds.
  abbrev pub among : List (Node F) → ℕ
  among ns = count (λ n. p n.id) ns

  abbrev pub selected : List (Node F × Score F) → ℕ
  selected l = count (λ n. p n.0.id) l

  sorted_in-count :
      (n : Node F) (v : Score F ⊎ String) (acc : List (Node F × Score F) × List SkipReason)
      → selected (sorted_in n v acc).0 + skipped_of p (sorted_in n v acc).1
        ≡ (if p n.id then 1 else 0) + (selected acc.0 + skipped_of p acc.1)
  unfolding sorted_in
  sorted_in-count n (inl s) acc = omega arith
  sorted_in-count n (inr reason) acc = omega arith

  judge_all-count :
      (fl : Floats F) (f : Filter F) (ns : List (Node F))
      → selected (judge_all fl f ns).0 + skipped_of p (judge_all fl f ns).1 ≡ among ns
  unfolding judge_all
  judge_all-count fl f [] = omega arith
  judge_all-count fl f (n ∷ ns) =
      omega (arith, sorted_in-count n (judge fl f n) (judge_all fl f ns), judge_all-count fl f ns)

  insert-count :
      (lt : Node F × Score F → Node F × Score F → Bool) (x : Node F × Score F)
      (l : List (Node F × Score F))
      → selected (insert lt x l) ≡ (if p x.0.id then 1 else 0) + selected l
  unfolding insert
  insert-count lt x [] = refl
  insert-count lt x (y ∷ ys) = elim (Bool-cases (lt y x)) [
    | inl e ↦ rw e (omega (arith, insert-count lt x ys))
    | inr e ↦ rw e (omega arith)
  ]

  stable_sort-count :
      (lt : Node F × Score F → Node F × Score F → Bool) (l : List (Node F × Score F))
      → selected (stable_sort lt l) ≡ selected l
  unfolding stable_sort
  stable_sort-count lt [] = refl
  stable_sort-count lt (x ∷ l) =
      omega (arith, insert-count lt x (stable_sort lt l), stable_sort-count lt l)

  passed-count :
      (b : Bool) (n : Node F × Score F) (acc : List (Node F × Score F) × List SkipReason)
      → selected (passed b n acc).0 + skipped_of p (passed b n acc).1
        ≡ (if p n.0.id then 1 else 0) + (selected acc.0 + skipped_of p acc.1)
  unfolding passed
  passed-count true n acc = omega arith
  passed-count false n acc = omega arith

  unique_ips-count :
      (seen : List String) (l : List (Node F × Score F))
      → selected (unique_ips seen l).0 + skipped_of p (unique_ips seen l).1 ≡ selected l
  unfolding unique_ips
  unique_ips-count seen [] = omega arith
  unique_ips-count seen (n ∷ ns) =
      let key = n.0.endpoint_ip in
      let known = not (key == "") && has_text key seen in
      let seen' = if (key == "") || known then seen else key ∷ seen in
      omega (arith, passed-count known n (unique_ips seen' ns), unique_ips-count seen' ns)

  over_limit-count : (l : List (Node F × Score F)) → skipped_of p (over_limit l) ≡ selected l
  unfolding over_limit
  over_limit-count [] = refl
  over_limit-count (n ∷ ns) = omega (arith, over_limit-count ns)

  take-drop-count :
      (k : ℕ) (l : List (Node F × Score F)) → selected (take k l) + selected (drop k l) ≡ selected l
  take-drop-count zero l = omega arith
  take-drop-count (suc k) [] = omega arith
  take-drop-count (suc k) (x ∷ l) = omega (arith, take-drop-count k l)

  limited-count :
      (limit : ℕ) (l : List (Node F × Score F))
      → selected (limited limit l).0 + skipped_of p (limited limit l).1 ≡ selected l
  unfolding limited
  limited-count limit l = elim (Bool-cases (ltb 0 limit && ltb limit (length l))) [
    | inl e ↦ rw e (omega (arith, over_limit-count (drop limit l), take-drop-count limit l))
    | inr e ↦ rw e (omega arith)
  ]

-- Every node is selected or skipped with a reason, exactly once: however often IDs with a given
-- property come among the nodes, so often they come among the selected and the skipped together.
pub select_with_reasons-count :
    {F : Type 0} (p : String → Bool) (fl : Floats F) (f : Filter F) (nodes : List (Node F))
    → selected p (select_with_reasons fl f nodes).0
        + skipped_of p (select_with_reasons fl f nodes).1
      ≡ among p nodes
unfolding select_with_reasons
select_with_reasons-count p fl f nodes =
    let first = judge_all-count p fl f nodes in
    let sorted = stable_sort (less fl f) (judge_all fl f nodes).0 in
    let second = stable_sort-count p (less fl f) (judge_all fl f nodes).0 in
    elim (Bool-cases f.one_per_endpoint_ip) [
      | inl e ↦ simp e (
          omega (
            arith,
            first,
            second,
            unique_ips-count p [] sorted,
            limited-count p f.limit (unique_ips [] sorted).0,
            count-append (λ s. p s.node_id) (judge_all fl f nodes).1 _,
            count-append (λ s. p s.node_id) (unique_ips [] sorted).1
                (limited f.limit (unique_ips [] sorted).0).1,
          ))
      | inr e ↦ simp e (
          omega (
            arith,
            first,
            second,
            limited-count p f.limit sorted,
            count-append (λ s. p s.node_id) (judge_all fl f nodes).1
                ([] ++ (limited f.limit sorted).1),
          ))
    ]
