-- ===== src/Logging.antt =====
-- Buffer of internal/infrastructure/logging/buffer.go: the recent log records in memory. The
-- functions of package strings that it calls are a parameter.
mod Tests
pub mod Recent
pub mod Found
pub mod Writer
pub mod View
use bagualu.Base.{
  ℕ, zero, suc, ◌+◌, String, Bool, false, not, ◌&&◌, ◌||◌, List, [], ◌∷◌, ◌++◌, ltb, leb, ◌==◌,
  nat_eq, string_eq, if◌then◌else◌, length, last_of,
}

pub record Entry : Type 0 where
  -- a uint64, which does not run over in practice: the model does not wrap
  pub id : ℕ
  pub time : ℕ
  pub service : String
  pub stream : String
  pub level : String
  pub message : String

pub record Query : Type 0 where
  pub service : String
  pub level : String
  pub query : String
  pub since : ℕ
  pub limit : ℕ

pub record Buffer : Type 0 where
  pub max_entries : ℕ
  pub next_id : ℕ
  pub entries : List Entry

-- What the buffer needs of package strings.
pub record Texts : Type 0 where
  pub trim_space : String → String
  pub to_lower : String → String
  pub contains : String → String → Bool

-- max is signed in the source: what is not positive is replaced.
pub new_buffer : ℕ → Buffer
new_buffer n = record { max_entries = if leb n 0 then 1000 else n; next_id = 0; entries = [] }

any_in : Texts → String → List String → Bool
any_in t lower [] = false
any_in t lower (word ∷ words) = t.contains lower word || any_in t lower words

abbrev error_words : List String
error_words =
    "panic" ∷ "fatal" ∷ "error" ∷ "failed" ∷ "failure" ∷ "unavailable" ∷ "refused" ∷ "timeout"
    ∷ "unreachable" ∷ "进程退出" ∷ "exit status" ∷ "signal:" ∷ []

pub detect_level : Texts → String → String
unfolding any_in
detect_level t message =
    let lower = t.to_lower message in
    if any_in t lower error_words
    then "error"
    else if t.contains lower "warn"
    then "warn"
    else if t.contains lower "debug"
    then "debug"
    else "info"

-- b.entries[len(b.entries)-b.max:] where it is longer than b.max
abbrev cut : ℕ → List Entry → List Entry
cut n l = if ltb n (length l) then last_of n l else l

-- Add at a time.
pub add : Texts → ℕ → String → String → String → String → Buffer → Buffer
unfolding detect_level
add t now service stream level message b =
    let text = t.trim_space message in
    let entry : Entry = record {
      id = b.next_id + 1;
      time = now;
      service = service;
      stream = stream;
      level = if level == "" then detect_level t text else level;
      message = text;
    } in
    if text == "" then b else record b {
      next_id = b.next_id + 1;
      entries = cut b.max_entries (b.entries ++ (entry ∷ []));
    }

-- The conditions of the loop of Entries on one record.
pub matches : Texts → Query → Entry → Bool
matches t q e =
    let needle = t.to_lower (t.trim_space q.query) in
    not (
      leb e.id q.since
      || ((not (q.service == "") && not (e.service == q.service))
          || (not (q.level == "") && not (e.level == q.level))))
    && ((needle == "") || t.contains (t.to_lower e.message) needle)

-- The loop of Entries, on the records from the newest, with `room` left in the result.
pub collect : Texts → Query → ℕ → List Entry → List Entry
unfolding matches
collect t q room [] = []
collect t q zero (e ∷ older) = []
collect t q (suc room) (e ∷ older) =
    let taken = collect t q room older in
    let passed = collect t q (suc room) older in if matches t q e then e ∷ taken else passed

abbrev pub reverse_onto : List Entry → List Entry → List Entry
reverse_onto [] acc = acc
reverse_onto (e ∷ l) acc = reverse_onto l (e ∷ acc)

abbrev pub room_for : Query → Buffer → ℕ
room_for q b = if leb q.limit 0 || ltb b.max_entries q.limit then b.max_entries else q.limit

unfoldable pub entries_for : Texts → Query → Buffer → List Entry
unfolding collect
entries_for t q b = collect t q (room_for q b) (reverse_onto b.entries [])

pub latest_id : Buffer → ℕ
latest_id b = b.next_id
