-- ===== src/Refresh/Unlinked.antt =====
-- What the second loop of UpstreamRefresher.Refresh (internal/application/upstream_refresh.go) takes
-- from the nodes of the upstream.
use bagualu.Base.{
  String, ◌≡◌, refl, ap, ◌∙◌, inl, inr, Bool, true, false, not, ◌&&◌, ◌||◌, Option, none, some,
  List, [], ◌∷◌, arith, ◌==◌, nat_eq, string_eq, str_eq_iff, Bool-cases,
}
use bagualu.Refresh.Prune.{
  Wired, is_kept, expire_node, clear_node, after_sources, prune_node, next_pruned, prune_all,
}
use bagualu.Refresh.Import.{Env, has, lookup_node, Step, ok, fail}
use bagualu.Refresh.Store.{
  NodeSource, Store, update_status, without_source, delete_source, delete_measurements,
}
use bagualu.Refresh.Linked.{linked, linked-without}

module _ (env : Env) (wired : Wired) (u : String) where
  -- The nodes to prune are unlinked, and no others.
  abbrev pub Pruned : List String → List String → List NodeSource → Step Store → Type 0
  Pruned seen ids old (fail e s) = Unit
  Pruned seen ids old (ok s) =
      (i : String) → linked i u s.sources ≡ (linked i u old && (has i seen || not (has i ids)))

  expire_node-sources : (i : String) (s : Store) → (expire_node env wired u i s).sources ≡ s.sources
  unfolding expire_node update_status
  expire_node-sources i s =
      elim (Bool-cases (is_kept env wired u (lookup_node env i s) || env.status_fails i)) [
        | inl e ↦ rw e refl
        | inr e ↦ rw e refl
      ]

  abbrev SameSources : List NodeSource → Step Store → Type 0
  SameSources l (fail e s) = Unit
  SameSources l (ok s) = s.sources ≡ l

  after_sources-SameSources :
      (j : String) (s : Store) (o : Option (List NodeSource))
      → SameSources s.sources (after_sources env wired u j s o)
  unfolding after_sources clear_node delete_measurements
  after_sources-SameSources j s none = refl
  after_sources-SameSources j s (some (source ∷ l)) = refl
  after_sources-SameSources j s (some []) = elim (Bool-cases (not wired.measurements)) [
    | inl e ↦ rw e (expire_node-sources j s)
    | inr e ↦ elim (Bool-cases (env.measurements_fail j)) [
      | inl f ↦ rw (e, f) tt
      | inr f ↦ rw (e, f) (expire_node-sources j (delete_measurements j s))
    ]
  ]

  Unlinked : String → List NodeSource → Step Store → Type 0
  Unlinked j old (fail e s) = Unit
  Unlinked j old (ok s) = (i : String) → linked i u s.sources ≡ (linked i u old && not (j == i))

  Unlinked-SameSources :
      (j : String) (old : List NodeSource) (step : Step Store)
      → SameSources (without_source j u old) step
      → Unlinked j old step
  unfolding Unlinked
  Unlinked-SameSources j old (fail e s) h = tt
  Unlinked-SameSources j old (ok s) h = λ i. ap (linked i u) h ∙ linked-without i j u old

  prune_node-Unlinked : (j : String) (s : Store) → Unlinked j s.sources (prune_node env wired u j s)
  unfolding prune_node delete_source Unlinked
  prune_node-Unlinked j s = elim (Bool-cases (env.delete_fails j)) [
    | inl e ↦ rw e tt
    | inr e ↦
        rw e
          (Unlinked-SameSources j s.sources _ (after_sources-SameSources j (delete_source j u s) _))
  ]

  -- An ID that was seen is passed over.
  seen_entry :
      (l h : Bool) (i j : String) (seen : List String)
      → has j seen ≡ true
      → (l && (has i seen || not h)) ≡ (l && (has i seen || not ((j == i) || h)))
  seen_entry l h i j seen e = elim (Bool-cases (j == i)) [
    | inl f ↦ let own : has i seen ≡ true = rw ((str_eq_iff j i).0 f) at e in rw own refl
    | inr f ↦ rw f refl
  ]

  Pruned-seen :
      (j : String) (seen ids : List String) (old : List NodeSource) (step : Step Store)
      → has j seen ≡ true
      → Pruned seen ids old step
      → Pruned seen (j ∷ ids) old step
  unfolding has
  Pruned-seen j seen ids old (fail e s) h k = tt
  Pruned-seen j seen ids old (ok s) h k =
      λ i. k i ∙ seen_entry (linked i u old) (has i ids) i j seen h

  unseen_entry :
      (l h : Bool) (i j : String) (seen : List String)
      → has j seen ≡ false
      → ((l && not (j == i)) && (has i seen || not h)) ≡ (l && (has i seen || not ((j == i) || h)))
  unseen_entry l h i j seen e = elim (Bool-cases (j == i)) [
    | inl f ↦
        let own : has i seen ≡ false = rw ((str_eq_iff j i).0 f) at e in rw (own, f) (ground arith)
    | inr f ↦ rw f (ground arith)
  ]

  Pruned-next :
      (j : String) (seen ids : List String) (old : List NodeSource) (s : Store) (step : Step Store)
      → has j seen ≡ false
      → ((i : String) → linked i u s.sources ≡ (linked i u old && not (j == i)))
      → Pruned seen ids s.sources step
      → Pruned seen (j ∷ ids) old step
  unfolding has
  Pruned-next j seen ids old s (fail e t) h gone k = tt
  Pruned-next j seen ids old s (ok t) h gone k = λ i.
      k i
      ∙ ap (λ l. l && (has i seen || not (has i ids))) (gone i)
      ∙ unseen_entry (linked i u old) (has i ids) i j seen h

  next_pruned-Pruned :
      (j : String) (seen ids : List String) (old : List NodeSource) (step : Step Store)
      (again : Store → Step Store)
      → has j seen ≡ false
      → Unlinked j old step
      → ((s : Store) → Pruned seen ids s.sources (again s))
      → Pruned seen (j ∷ ids) old (next_pruned env wired u again step)
  unfolding next_pruned Unlinked
  next_pruned-Pruned j seen ids old (fail e s) again h gone later = tt
  next_pruned-Pruned j seen ids old (ok s) again h gone later =
      Pruned-next j seen ids old s (again s) h gone (later s)

  pub prune_all-Pruned :
      (seen ids : List String) (s : Store)
      → Pruned seen ids s.sources (prune_all env wired u seen ids s)
  unfolding prune_all
  prune_all-Pruned seen [] s = λ i. unfold has in ground arith
  prune_all-Pruned seen (j ∷ ids) s = elim (Bool-cases (has j seen)) [
    | inl e ↦
        rw (e, next_pruned) (Pruned-seen j seen ids s.sources _ e (prune_all-Pruned seen ids s))
    | inr e ↦ rw e (
        next_pruned-Pruned j seen ids s.sources _ _ e (prune_node-Unlinked j s)
          (λ t. prune_all-Pruned seen ids t))
  ]
