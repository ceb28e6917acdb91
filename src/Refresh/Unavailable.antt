-- ===== src/Refresh/Unavailable.antt =====
-- A subscription that cannot be had (UpstreamRefresher.Refresh in
-- internal/application/upstream_refresh.go).
use bagualu.Base.{
  ℕ, String, ◌≡◌, refl, ◌⊎◌, inl, inr, not, ◌&&◌, ◌||◌, Option, none, some, List, [], ◌∷◌,
  Bool-cases,
}
use bagualu.Refresh.Prune.{
  Upstream, Wired, open_record, save_failure, import_parsed, import_fetched, refresh_found,
  refresh_upstream,
}
use bagualu.Refresh.Import.{Env}
use bagualu.Refresh.Fetch.{Http, fetch, refused, body}
use bagualu.Refresh.Store.{
  Node, RefreshError, RefreshRecord, Store, save_record, not_configured, no_upstream, parse_failed,
}

-- The upstream is missing, its URL gives no body, or the body cannot be parsed.
abbrev pub IsUnavailable :
    Http → (List ℕ → String → Option (List Node)) → Option Upstream → RefreshError → Type 0
IsUnavailable h parse none e = e ≡ no_upstream
IsUnavailable h parse (some u) e =
    (fetch h u.url ≡ refused e)
    ⊎ ((bytes : List ℕ) × (fetch h u.url ≡ body bytes)
        × (parse bytes u.url ≡ none)
        × (e ≡ parse_failed))

abbrev pub SameTables : Store → Store → Type 0
SameTables s t =
    (t.nodes ≡ s.nodes) × (t.sources ≡ s.sources) × (t.measured_nodes ≡ s.measured_nodes)

module _ (env : Env) (wired : Wired) (h : Http) (parse : List ℕ → String → Option (List Node)) where
  save_failure-SameTables :
      (r : RefreshRecord) (e : RefreshError) (s : Store)
      → ((save_failure env wired h parse r e s).errors ≡ e ∷ [])
        × SameTables s (save_failure env wired h parse r e s).store
  unfolding save_failure save_record
  save_failure-SameTables r e s = elim (Bool-cases (wired.upstreams && not env.record_fails)) [
    | inl t ↦ rw t (refl, (refl, refl, refl))
    | inr t ↦ rw t (refl, (refl, refl, refl))
  ]

  refresh_found-unavailable :
      (r : RefreshRecord) (found : Option Upstream) (e : RefreshError) (s : Store)
      → IsUnavailable h parse found e
      → ((refresh_found env wired h parse r s found).errors ≡ e ∷ [])
        × SameTables s (refresh_found env wired h parse r s found).store
  unfolding refresh_found import_fetched import_parsed
  refresh_found-unavailable r none e s gone = rw gone (save_failure-SameTables r no_upstream s)
  refresh_found-unavailable r (some u) e s (inl k) = rw k (save_failure-SameTables r e s)
  refresh_found-unavailable r (some u) e s (inr (bytes, k, bad, same)) =
      rw (k, bad, same) (save_failure-SameTables r parse_failed s)

-- A refresh of an upstream that is missing, cannot be fetched or cannot be parsed returns that
-- error, or that nothing is configured, and leaves the nodes, their sources and their
-- measurements as they were.
pub refresh_upstream-unavailable :
    (env : Env) (wired : Wired) (h : Http) (parse : List ℕ → String → Option (List Node))
    (upstream_id : String) (found : Option Upstream) (e : RefreshError) (s : Store)
    → IsUnavailable h parse found e
    → let r = refresh_upstream env wired h parse upstream_id found s in
      ((r.errors ≡ e ∷ []) ⊎ (r.errors ≡ not_configured ∷ [])) × SameTables s r.store
unfolding refresh_upstream
refresh_upstream-unavailable env wired h parse upstream_id found e s gone =
    elim (Bool-cases (not wired.upstreams || not wired.nodes)) [
      | inl t ↦
          let held =
            save_failure-SameTables env wired h parse (open_record upstream_id) not_configured s in
          rw t (inr held.0, held.1)
      | inr t ↦
          let held =
            refresh_found-unavailable env wired h parse (open_record upstream_id) found e s gone in
          rw t (inl held.0, held.1)
    ]
