-- ===== src/Web/Logs.antt =====
-- Logs of web/admin/src/main.tsx: the filters of the page, the request that they make, and its rows.
mod Tests
pub mod Served
use bagualu.Base.{
  String, Option, none, some, List, [], ◌∷◌, ◌++◌, ◌==◌, nat_eq, string_eq, if◌then◌else◌,
}

-- useState of level, service, query and draftQuery
pub record LogFilters : Type 0 where
  pub level : String
  pub service : String
  pub query : String
  pub draft_query : String

abbrev pub no_filters : LogFilters
no_filters = record { level = ""; service = ""; query = ""; draft_query = "" }

-- value || "" of a Select, which gives undefined where it is cleared
abbrev or_empty : Option String → String
or_empty none = ""
or_empty (some s) = s

-- What the controls call.
pub data Input : Type 0 where
  choose_level choose_service : Option String → Input
  type_query search_query : String → Input

pub on_input : Input → LogFilters → LogFilters
on_input (choose_level value) f = record f { level = or_empty value }
on_input (choose_service value) f = record f { service = or_empty value }
on_input (type_query value) f = record f { draft_query = value }
on_input (search_query value) f = record f { query = value }

unfoldable pub on_inputs : List Input → LogFilters → LogFilters
unfolding on_input
on_inputs [] f = f
on_inputs (i ∷ inputs) f = on_inputs inputs (on_input i f)

-- A path with its parameters: the template string, kept as its parts.
pub record Endpoint : Type 0 where
  pub path : String
  pub params : List (String × String)

module _ (encode : String → String) where
  -- ${value ? `&name=${encodeURIComponent(value)}` : ""}
  pub query_param : String → String → List (String × String)
  query_param name value = if value == "" then [] else (name, encode value) ∷ []

  unfoldable pub endpoint : LogFilters → Endpoint
  unfolding query_param
  endpoint f = record {
    path = "/system/logs";
    params =
        ("limit", "200")
        ∷ (query_param "level" f.level
            ++ (query_param "service" f.service ++ query_param "q" f.query));
  }

-- result.data.logs || []
pub log_rows {ℓ} : {A : Type ℓ} → Option (List A) → List A
log_rows none = []
log_rows (some logs) = logs
