-- ===== src/Refresh/Prepared.antt =====
-- The node that UpstreamRefresher.Refresh (internal/application/upstream_refresh.go) saves.
use bagualu.Base.{String, ◌≡◌, refl, inl, inr, Option, none, some, List, Bool-cases}
use bagualu.Refresh.Import.{Env, lookup_node, is_disabled, keep_disabled, prepare_node}
use bagualu.Refresh.Store.{Node, Store, disabled}

module _ (env : Env) (u url : String) (previous : List String) where
  keep_disabled-id :
      (node : Node) (o : Option Node) → (keep_disabled env u url previous node o).id ≡ node.id
  unfolding keep_disabled
  keep_disabled-id node none = refl
  keep_disabled-id node (some existing) =
      elim (Bool-cases (is_disabled env u url previous existing.status)) [
        | inl e ↦ rw e refl
        | inr e ↦ rw e refl
      ]

  pub prepare_node-id :
      (node : Node) (s : Store) → (prepare_node env u url previous node s).id ≡ node.id
  unfolding prepare_node
  prepare_node-id node s = keep_disabled-id _ (lookup_node env node.id s)

  keep_disabled-status :
      (node existing : Node)
      → existing.status ≡ disabled
      → (keep_disabled env u url previous node (some existing)).status ≡ disabled
  unfolding keep_disabled
  keep_disabled-status node existing h = rw h refl

  pub prepare_node-status :
      (node existing : Node) (s : Store)
      → lookup_node env node.id s ≡ some existing
      → existing.status ≡ disabled
      → (prepare_node env u url previous node s).status ≡ disabled
  unfolding prepare_node
  prepare_node-status node existing s e h = rw e (keep_disabled-status _ existing h)
