-- ===== src/Logging/View.antt =====
-- writeLogs of internal/transport/http/handlers_system.go: the page of log entries that the console
-- asks for, of the buffer and of the jobs.
pub mod Page
use Prim.Native.String.{◌++◌ as join}
use bagualu.Base.{
  ℕ, ◌-◌, ◌^◌, String, Bool, not, ◌&&◌, ◌||◌, Option, none, some, List, [], ◌∷◌, ◌++◌, ltb, ◌==◌,
  nat_eq, string_eq, if◌then◌else◌, take,
}
use bagualu.Base.Sort.{stable_sort}
use bagualu.Access.{is_terminal}
use bagualu.Logging.{Texts, Entry, Query, Buffer, entries_for, latest_id}

-- An entry of the answer, less its numbering, stream, progress and other times, which nothing here
-- reads; `none` is a key that its map does not hold.
pub record LogEntry : Type 0 where
  pub time : ℕ
  pub level : String
  pub service : String
  pub kind : String
  pub status : String
  pub message : String
  pub detail : String
  pub job_id : Option String
  pub node_id : Option String
  pub error_code : String
  pub failure_stage : Option String

-- The fields of domain.Job that are shown.
pub record Job : Type 0 where
  pub id : String
  pub kind : String
  pub status : String
  pub entity_id : String
  pub error : String
  pub error_code : String
  pub error_detail : String
  pub failure_stage : String
  pub updated_at : ℕ

-- A request: the first value of each parameter, as url.Values.Get gives it.
abbrev pub Params : Type 0
Params = String → String

-- What strconv.ParseUint answers: a number, or an error for a text that is none or for a number of
-- more than 64 bits.
pub data Uint : Type 0 where
  number : ℕ → Uint
  syntax_error range_error : Uint

-- strconv.Atoi and ParseUint; `none` is an error or, for `atoi`, a number below 0.
pub record Numerals : Type 0 where
  pub atoi : String → Option ℕ
  pub parse_uint : String → Uint

-- fmt.Sprint of the value at a key
abbrev pub sprint : Option String → String
sprint none = "<nil>"
sprint (some s) = s

module _ (t : Texts) where
  pub detail_error_code : String → String
  detail_error_code detail =
      if not (t.contains detail ":") && not (t.contains detail " ") then detail else ""

  -- value == "" or the entry has it
  abbrev pub agrees_with : String → String → Bool
  agrees_with value held = (value == "") || (held == value)

  abbrev spaced : String → String → String
  spaced a b = join (join a " ") b

  pub searchable : LogEntry → String
  searchable e = t.to_lower (
      spaced e.message (
        spaced e.detail (
          spaced (sprint e.job_id)
            (spaced (sprint e.node_id) (spaced e.error_code (sprint e.failure_stage))))))

  unfoldable pub matches_log_filters : Params → LogEntry → Bool
  unfolding searchable
  matches_log_filters get e =
      agrees_with (get "level") e.level
      && (agrees_with (get "service") e.service
          && (agrees_with (get "kind") e.kind
              && (agrees_with (get "job_id") (sprint e.job_id)
                  && (agrees_with (get "node_id") (sprint e.node_id)
                      && (agrees_with (get "error_code") e.error_code
                          && ((t.trim_space (get "q") == "")
                              || t.contains (searchable e)
                                  (t.to_lower (t.trim_space (get "q")))))))))

  pub runtime_entry : Entry → LogEntry
  unfolding detail_error_code
  runtime_entry e = record {
    time = e.time;
    level = e.level;
    service = e.service;
    kind = "runtime";
    status = "logged";
    message = e.message;
    detail = e.message;
    job_id = none;
    node_id = none;
    error_code = detail_error_code e.message;
    failure_stage = none;
  }

  pub job_log_level : String → String
  job_log_level status =
      if status == "failed" then "error" else if status == "succeeded" then "info" else "debug"

  job_detail : Job → String
  job_detail job =
      if (job.error_detail == "") && (not (job.error == "") && not (job.error == job.error_code))
      then job.error
      else job.error_detail

  shown_detail : Job → String → String
  shown_detail job detail =
      if (detail == "") && not (is_terminal job.status) then "任务正在等待执行或处理中" else detail

  job_message : Job → String → String → String
  job_message job level detail =
      let message = join (join (join "任务 " job.kind) " 状态: ") job.status in
      if not (detail == "") && ((level == "error") || (job.status == "cancelled"))
      then join (join message "；") detail
      else message

  pub job_entry : Job → LogEntry
  unfolding job_detail shown_detail job_message detail_error_code job_log_level
  job_entry job =
      let level = job_log_level job.status in
      let known = job_detail job in
      let detail = shown_detail job known in
      record {
        time = job.updated_at;
        level = level;
        service = "bagualu";
        kind = job.kind;
        status = job.status;
        message = job_message job level detail;
        detail = detail;
        job_id = some job.id;
        node_id = some job.entity_id;
        error_code =
            if (job.error_code == "") && not (known == "")
            then detail_error_code known
            else job.error_code;
        failure_stage = some job.failure_stage;
      }

  -- The loops over the entries and over the jobs.
  unfoldable pub kept_runtime : Params → List Entry → List LogEntry
  unfolding runtime_entry matches_log_filters
  kept_runtime get [] = []
  kept_runtime get (e ∷ entries) =
      let rest = kept_runtime get entries in
      if matches_log_filters get (runtime_entry e) then runtime_entry e ∷ rest else rest

  unfoldable pub kept_jobs : Params → List Job → List LogEntry
  unfolding job_entry matches_log_filters
  kept_jobs get [] = []
  kept_jobs get (job ∷ jobs) =
      let rest = kept_jobs get jobs in
      if matches_log_filters get (job_entry job) then job_entry job ∷ rest else rest

positive_or : ℕ → Option ℕ → ℕ
positive_or default none = default
positive_or default (some n) = if ltb 0 n then n else default

unfoldable pub limit_of : Numerals → Params → ℕ
unfolding positive_or
limit_of numerals get =
    let limit = positive_or 100 (numerals.atoi (get "limit")) in
    if ltb 500 limit then 500 else limit

-- since, _ := strconv.ParseUint(…): with a range error the largest number is left, and 0 with
-- another one.
unfoldable pub since_of : Uint → ℕ
since_of (number n) = n
since_of syntax_error = 0
since_of range_error = 2 ^ 64 - 1

-- left.After(right)
abbrev pub is_newer : LogEntry → LogEntry → Bool
is_newer a b = ltb b.time a.time

module _ (t : Texts) (numerals : Numerals) (get : Params) (core_only : Bool) where
  unfoldable pub query_of : Query
  unfolding limit_of since_of
  query_of = record {
    service = if core_only then "mihomo" else get "service";
    level = get "level";
    query = get "q";
    since = since_of (numerals.parse_uint (get "since"));
    limit = limit_of numerals get;
  }

  pub runtime_logs : Option Buffer → List LogEntry
  unfolding kept_runtime query_of
  runtime_logs none = []
  runtime_logs (some b) = kept_runtime t get (entries_for t query_of b)

  -- The jobs that FindAll gives; `none` is its error.
  pub found_logs : Option (List Job) → List LogEntry
  unfolding kept_jobs
  found_logs none = []
  found_logs (some jobs) = kept_jobs t get jobs

  pub job_logs : Option (ℕ → Option (List Job)) → List LogEntry
  unfolding found_logs
  job_logs none = []
  job_logs (some find_all) = found_logs (find_all (limit_of numerals get))

  -- writeLogs: the entries of the answer.
  unfoldable pub write_logs : Bool → Option Buffer → Option (ℕ → Option (List Job)) → List LogEntry
  unfolding runtime_logs job_logs since_of
  write_logs stream_only buffer store =
      let with_jobs =
        not stream_only && (not core_only && (since_of (numerals.parse_uint (get "since")) == 0)) in
      take (limit_of numerals get)
        (stable_sort is_newer (runtime_logs buffer ++ (if with_jobs then job_logs store else [])))

-- next_since
pub next_since : Option Buffer → Option ℕ
unfolding latest_id
next_since none = none
next_since (some b) = some (latest_id b)
