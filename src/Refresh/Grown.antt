-- ===== src/Refresh/Grown.antt =====
-- What the first loop of UpstreamRefresher.Refresh (internal/application/upstream_refresh.go) adds to
-- the nodes of the upstream.
use mathlib.Core.Path.{subst}
use bagualu.Base.{
  ℕ, String, ◌≡◌, refl, ◌∙◌, inl, inr, Bool, true, false, ◌&&◌, ◌||◌, List, [], ◌∷◌, arith, ◌==◌,
  nat_eq, string_eq, str_eq_iff, Bool-cases,
}
use bagualu.Refresh.Prepared.{prepare_node-id}
use bagualu.Refresh.Import.{
  Env, has, note, Import, Step, identify, prepare_node, save_imported, identified, import_node,
  next_node, import_all, ok, fail,
}
use bagualu.Refresh.Store.{Node, NodeSource, Store, save_node, links, put_source, save_source}
use bagualu.Refresh.Linked.{linked, linked-put, has-note, NoRepeat, note-NoRepeat}

module _ (env : Env) (u url : String) (previous : List String) (old : List NodeSource) where
  -- The upstream has the nodes that were seen, and those that it had.
  abbrev pub IsGrown : Import → Type 0
  IsGrown im =
      ((i : String) → linked i u im.store.sources ≡ (has i im.seen || linked i u old))
      × NoRepeat im.seen

  abbrev pub Grown : Step Import → Type 0
  Grown (fail e s) = Unit
  Grown (ok im) = IsGrown im

  own_link :
      (i j : String) (o : String)
      → links i u (record { node_id = j; upstream_id = u; original_name = o }) ≡ (j == i)
  own_link i j o = rw ((str_eq_iff u u).1 refl) (and_true (j == i))
    where
      and_true : (b : Bool) → (b && true) ≡ b
      and_true true = refl
      and_true false = refl

  grown_entry :
      (node : Node) (s : Store) (seen : List String) (made : ℕ)
      → IsGrown (record { store = s; seen = seen; made = made })
      → (i : String)
      → linked i u (
          put_source
            (record { node_id = node.id; upstream_id = u; original_name = node.name })
            s.sources)
        ≡ (has i (note node.id seen) || linked i u old)
  grown_entry node s seen made g i =
      linked-put i u _ s.sources
      ∙ rw (own_link i node.id node.name, has-note) (ground (arith, g.0 i))

  save_imported-Grown :
      (node : Node) (s : Store) (seen : List String) (made : ℕ)
      → IsGrown (record { store = s; seen = seen; made = made })
      → Grown (
          save_imported env u url previous node
            (record { store = s; seen = note node.id seen; made = made }))
  unfolding save_imported save_node save_source
  save_imported-Grown node s seen made g = elim (Bool-cases (env.save_fails node.id)) [
    | inl e ↦ simp e tt
    | inr e ↦ elim (Bool-cases (env.source_fails node.id)) [
      | inl f ↦ simp (e, f) tt
      | inr f ↦ simp (e, f) (λ i. grown_entry node s seen made g i, note-NoRepeat node.id seen g.1)
    ]
  ]

  identified-Grown :
      (im : Import) (step : Step (Node × ℕ))
      → IsGrown im
      → Grown (identified env u url previous im step)
  unfolding identified
  identified-Grown im (fail e t) g = tt
  identified-Grown im (ok (node, made)) g =
      let prepared = prepare_node env u url previous node im.store in
      subst
        (λ j. Grown (
          save_imported env u url previous prepared
            (record { store = im.store; seen = note j im.seen; made = made })))
        (prepare_node-id env u url previous node im.store)
        (save_imported-Grown prepared im.store im.seen made g)

  import_node-Grown :
      (node : Node) (im : Import) → IsGrown im → Grown (import_node env u url previous node im)
  unfolding import_node
  import_node-Grown node im g = elim (Bool-cases (has node.id im.seen)) [
    | inl e ↦ rw e g
    | inr e ↦ rw e (identified-Grown im (identify env u url previous node im) g)
  ]

  next_node-Grown :
      (again : Import → Step Import) (step : Step Import)
      → ((im : Import) → IsGrown im → Grown (again im))
      → Grown step
      → Grown (next_node env u url previous again step)
  unfolding next_node
  next_node-Grown again (fail e s) later g = tt
  next_node-Grown again (ok im) later g = later im g

  pub import_all-Grown :
      (nodes : List Node) (im : Import)
      → IsGrown im
      → Grown (import_all env u url previous nodes im)
  unfolding import_all
  import_all-Grown [] im g = g
  import_all-Grown (node ∷ nodes) im g =
      next_node-Grown (import_all env u url previous nodes) (import_node env u url previous node im)
        (import_all-Grown nodes) (import_node-Grown node im g)
