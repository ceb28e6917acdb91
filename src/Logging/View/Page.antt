-- ===== src/Logging/View/Page.antt =====
-- What the answer of writeLogs (internal/transport/http/handlers_system.go) holds.
use bagualu.Base.{
  ℕ, ◌≤◌, ◌≡◌, inl, inr, Bool, true, false, Option, none, some, List, [], ◌∷◌, arith, if◌then◌else◌,
  Bool-cases, length, take, length-take, All, All-append, All-append, All-take, length-take,
}
use bagualu.Base.Sort.{stable_sort, stable_sort-All, stable_sort-IsSorted, IsSorted, IsSorted-take}
use bagualu.Logging.{Texts, Entry, Buffer}
use bagualu.Logging.View.{
  LogEntry, Job, Params, Numerals, matches_log_filters, runtime_entry, job_entry, kept_runtime,
  kept_jobs, limit_of, is_newer, runtime_logs, job_logs, found_logs, write_logs,
}

-- A page of at most 500 entries that pass the filters of the request, the newest first.
abbrev pub IsPage : Texts → Numerals → Params → List LogEntry → Type 0
IsPage t numerals get logs =
    (length logs ≤ limit_of numerals get)
    × (limit_of numerals get ≤ 500)
    × All (λ e. matches_log_filters t get e ≡ true) logs
    × IsSorted is_newer logs

module _ (t : Texts) (get : Params) where
  abbrev Matches : LogEntry → Type 0
  Matches e = matches_log_filters t get e ≡ true

  kept_runtime-All : (entries : List Entry) → All Matches (kept_runtime t get entries)
  unfolding kept_runtime
  kept_runtime-All [] = tt
  kept_runtime-All (e ∷ entries) =
      elim (Bool-cases (matches_log_filters t get (runtime_entry t e))) [
        | inl h ↦ rw h (h, kept_runtime-All entries)
        | inr h ↦ rw h (kept_runtime-All entries)
      ]

  kept_jobs-All : (jobs : List Job) → All Matches (kept_jobs t get jobs)
  unfolding kept_jobs
  kept_jobs-All [] = tt
  kept_jobs-All (job ∷ jobs) = elim (Bool-cases (matches_log_filters t get (job_entry t job))) [
    | inl h ↦ rw h (h, kept_jobs-All jobs)
    | inr h ↦ rw h (kept_jobs-All jobs)
  ]

  module _ (numerals : Numerals) (core_only : Bool) where
    runtime_logs-All :
        (buffer : Option Buffer) → All Matches (runtime_logs t numerals get core_only buffer)
    unfolding runtime_logs
    runtime_logs-All none = tt
    runtime_logs-All (some b) = kept_runtime-All _

    found_logs-All :
        (found : Option (List Job)) → All Matches (found_logs t numerals get core_only found)
    unfolding found_logs
    found_logs-All none = tt
    found_logs-All (some jobs) = kept_jobs-All jobs

    job_logs-All :
        (store : Option (ℕ → Option (List Job)))
        → All Matches (job_logs t numerals get core_only store)
    unfolding job_logs
    job_logs-All none = tt
    job_logs-All (some find_all) = found_logs-All _

    if-All : (b : Bool) (l : List LogEntry) → All Matches l → All Matches (if b then l else [])
    if-All true l h = h
    if-All false l h = tt

limit_of-le : (numerals : Numerals) (get : Params) → limit_of numerals get ≤ 500
unfolding limit_of
limit_of-le numerals get = ground arith

is_newer-apart : (a b : LogEntry) → is_newer b a ≡ true → is_newer a b ≡ false
is_newer-apart a b h = ground arith

take-IsPage :
    (t : Texts) (numerals : Numerals) (get : Params) (l : List LogEntry)
    → All (Matches t get) l
    → IsPage t numerals get (take (limit_of numerals get) (stable_sort is_newer l))
take-IsPage t numerals get l each =
    let limit = limit_of numerals get in
    (
      omega (arith, length-take limit (stable_sort is_newer l)),
      limit_of-le numerals get,
      All-take (Matches t get) limit (stable_sort is_newer l)
          (stable_sort-All is_newer (Matches t get) l each),
      IsSorted-take is_newer limit (stable_sort is_newer l)
          (stable_sort-IsSorted is_newer is_newer-apart l),
    )

-- The answer to any request for logs has at most as many entries as it asked for, and never more
-- than 500; each passes all filters of the request, and no entry is newer than the one before it,
-- whatever the buffer and the job repository hold.
pub write_logs-IsPage :
    (t : Texts) (numerals : Numerals) (get : Params) (core_only stream_only : Bool)
    (buffer : Option Buffer) (store : Option (ℕ → Option (List Job)))
    → IsPage t numerals get (write_logs t numerals get core_only stream_only buffer store)
unfolding write_logs
write_logs-IsPage t numerals get core_only stream_only buffer store = take-IsPage t numerals get _ (
    All-append (Matches t get) (runtime_logs t numerals get core_only buffer) _
      (runtime_logs-All t get numerals core_only buffer)
      (if-All t get numerals core_only _ (job_logs t numerals get core_only store)
        (job_logs-All t get numerals core_only store)))
