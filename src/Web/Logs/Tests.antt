-- ===== src/Web/Logs/Tests.antt =====
-- A choice of the level of errors.
use bagualu.Base.{
  ℕ, ◌≤◌, String, ◌≡◌, refl, true, false, none, some, List, [], ◌∷◌, map, ◌==◌, nat_eq, string_eq,
  if◌then◌else◌, length, All,
}
use bagualu.Base.Sort.{stable_sort, IsSorted}
use bagualu.Logging.{Texts, Entry, Buffer, entries_for}
use bagualu.Logging.View.{Job, LogEntry, Numerals, syntax_error, is_newer, write_logs}
use bagualu.Logging.View.Page.{IsPage, write_logs-IsPage}
use bagualu.Web.Logs.{LogFilters, no_filters, choose_level, on_inputs, endpoint}
use bagualu.Web.Logs.Served.{IsChosen, served, served-IsChosen}

abbrev texts : Texts
texts = record { trim_space = λ s. s; to_lower = λ s. s; contains = λ s t. s == t }

abbrev numerals : Numerals
numerals = record {
  atoi = λ s. if s == "200" then some 200 else none;
  parse_uint = λ s. syntax_error;
}

abbrev errors : LogFilters
errors = on_inputs (choose_level (some "error") ∷ []) no_filters

chosen : (endpoint (λ s. s) errors).params ≡ ("limit", "200") ∷ ("level", "error") ∷ []
unfolding endpoint on_inputs
chosen = refl

abbrev at_level : ℕ → String → Entry
at_level now level = record {
  id = now;
  time = now;
  service = "mihomo";
  stream = "stderr";
  level = level;
  message = "refused";
}

abbrev buffer : Buffer
buffer = record {
  max_entries = 5;
  next_id = 3;
  entries = at_level 1 "error" ∷ at_level 2 "info" ∷ at_level 3 "error" ∷ [];
}

abbrev failed : Job
failed = record {
  id = "j";
  kind = "ping";
  status = "failed";
  entity_id = "n";
  error = "timeout";
  error_code = "";
  error_detail = "";
  failure_stage = "";
  updated_at = 2;
}

abbrev logs : List LogEntry
logs = served texts numerals (λ s. s) (λ s. s) errors (some buffer) (some (λ n. some (failed ∷ [])))

times : map (λ e. e.time) logs ≡ 3 ∷ 2 ∷ 1 ∷ []
unfolding write_logs endpoint on_inputs stable_sort entries_for
times = refl

served-IsChosen_example : (length logs ≤ 500) × IsSorted is_newer logs × All (IsChosen errors) logs
served-IsChosen_example =
    served-IsChosen texts numerals (λ s. s) (λ s. s) errors (some buffer)
      (some (λ n. some (failed ∷ []))) (λ s. refl)

write_logs-IsPage_example :
    IsPage texts numerals
      (λ k. "")
      (write_logs texts numerals (λ k. "") true false (some buffer) none)
write_logs-IsPage_example = write_logs-IsPage texts numerals (λ k. "") true false (some buffer) none
