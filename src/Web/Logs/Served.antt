-- ===== src/Web/Logs/Served.antt =====
-- The log page of web/admin/src/main.tsx on the answers of writeLogs in
-- internal/transport/http/handlers_system.go.
use bagualu.Base.{
  ℕ, ◌≤◌, String, ◌≡◌, refl, sym, ap, ◌∙◌, ◌⊎◌, inl, inr, true, false, ◌||◌, Option, List, [], ◌∷◌,
  ◌++◌, arith, ◌==◌, nat_eq, string_eq, str_eq_iff, if◌then◌else◌, Bool-cases, length, All,
  append-nil,
}
use bagualu.Base.Sort.{IsSorted}
use bagualu.Logging.{Texts, Buffer}
use bagualu.Logging.View.{
  LogEntry, Job, Params, Numerals, matches_log_filters, is_newer, write_logs,
}
use bagualu.Logging.View.Page.{write_logs-IsPage}
use bagualu.Web.Logs.{LogFilters, endpoint, query_param}

-- url.Values.Get on the parameters of a request: the first value, decoded, or the empty text.
abbrev pub value_at : (String → String) → String → List (String × String) → String
value_at decode k [] = ""
value_at decode k ((name, value) ∷ params) =
    let later = value_at decode k params in if name == k then decode value else later

-- The entries that the server answers the page with.
abbrev pub served :
    Texts
    → Numerals
    → (String → String)
    → (String → String)
    → LogFilters
    → Option Buffer
    → Option (ℕ → Option (List Job))
    → List LogEntry
served t numerals encode decode f buffer store =
    write_logs t numerals (λ k. value_at decode k (endpoint encode f).params) false false buffer
      store

-- The rows of the page: an entry has the chosen level and service, if any is chosen.
abbrev pub IsChosen : LogFilters → LogEntry → Type 0
IsChosen f e = ((f.level ≡ "") ⊎ (e.level ≡ f.level)) × ((f.service ≡ "") ⊎ (e.service ≡ f.service))

agrees_with-cases :
    (value held : String)
    → ((value == "") || (held == value)) ≡ true
    → (value ≡ "") ⊎ (held ≡ value)
agrees_with-cases value held h = elim (Bool-cases (value == "")) [
  | inl e ↦ inl ((str_eq_iff value "").0 e)
  | inr e ↦ inr ((str_eq_iff held value).0 (rw e at h))
]

module _ (encode decode : String → String) (undone : (s : String) → decode (encode s) ≡ s) where
  query_param-other :
      (k name v : String) (rest : List (String × String))
      → (name == k) ≡ false
      → value_at decode k (query_param encode name v ++ rest) ≡ value_at decode k rest
  unfolding query_param
  query_param-other k name v rest h = elim (Bool-cases (v == "")) [
    | inl e ↦ rw e refl
    | inr e ↦ rw (e, h) refl
  ]

  query_param-own :
      (k v : String) (rest : List (String × String))
      → value_at decode k rest ≡ ""
      → value_at decode k (query_param encode k v ++ rest) ≡ v
  unfolding query_param
  query_param-own k v rest h = elim (Bool-cases (v == "")) [
    | inl e ↦ rw e (h ∙ sym ((str_eq_iff v "").0 e))
    | inr e ↦ rw (e, (str_eq_iff k k).1 refl) (undone v)
  ]

  last_other :
      (k v : String) → ("q" == k) ≡ false → value_at decode k (query_param encode "q" v) ≡ ""
  last_other k v h =
      ap (value_at decode k) (sym (append-nil (query_param encode "q" v)))
      ∙ query_param-other k "q" v [] h

  value_at-level : (f : LogFilters) → value_at decode "level" (endpoint encode f).params ≡ f.level
  unfolding endpoint
  value_at-level f =
      query_param-own "level" f.level
        (query_param encode "service" f.service ++ query_param encode "q" f.query)
        (query_param-other "level" "service" f.service (query_param encode "q" f.query) refl
          ∙ last_other "level" f.query refl)

  value_at-service :
      (f : LogFilters) → value_at decode "service" (endpoint encode f).params ≡ f.service
  unfolding endpoint
  value_at-service f =
      query_param-other "service" "level" f.level
        (query_param encode "service" f.service ++ query_param encode "q" f.query) refl
      ∙ query_param-own "service" f.service (query_param encode "q" f.query)
          (last_other "service" f.query refl)

  -- A row that passes the filters of the request has what is chosen on the page.
  matches-IsChosen :
      (t : Texts) (f : LogFilters) (e : LogEntry)
      → matches_log_filters t (λ k. value_at decode k (endpoint encode f).params) e ≡ true
      → IsChosen f e
  unfolding matches_log_filters
  matches-IsChosen t f e h = (
    agrees_with-cases f.level e.level (rw (← value_at-level f) (ground arith)),
    agrees_with-cases f.service e.service (rw (← value_at-service f) (ground arith)),
  )

  All-IsChosen :
      (t : Texts) (f : LogFilters) (l : List LogEntry)
      → All
          (λ e. matches_log_filters t (λ k. value_at decode k (endpoint encode f).params) e ≡ true)
          l
      → All (IsChosen f) l
  All-IsChosen t f [] h = tt
  All-IsChosen t f (e ∷ l) h = (matches-IsChosen t f e h.0, All-IsChosen t f l h.1)

-- Whatever filters are chosen on the log page, the server answers its request with at most 500
-- entries, the newest first, and each has the level and the service that are chosen, if any are;
-- net/url decodes what encodeURIComponent encodes.
pub served-IsChosen :
    (t : Texts) (numerals : Numerals) (encode decode : String → String) (f : LogFilters)
    (buffer : Option Buffer) (store : Option (ℕ → Option (List Job)))
    → ((s : String) → decode (encode s) ≡ s)
    → let logs = served t numerals encode decode f buffer store in
      (length logs ≤ 500) × IsSorted is_newer logs × All (IsChosen f) logs
served-IsChosen t numerals encode decode f buffer store undone =
    let get : Params = λ k. value_at decode k (endpoint encode f).params in
    let page = write_logs-IsPage t numerals get false false buffer store in
    (omega (arith, page.0, page.1), page.3, All-IsChosen encode decode undone t f _ page.2)
