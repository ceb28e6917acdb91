-- ===== src/Logging/Writer.antt =====
-- lineWriter of internal/infrastructure/logging/buffer.go: the writes of a process cut into lines.
-- Text is the bytes of a Go string, `text` the string that they make.
pub mod Cut
pub mod Lines
use bagualu.Base.{
  ℕ, zero, suc, String, Option, none, some, List, [], ◌∷◌, ◌++◌, ◌==◌, nat_eq, string_eq,
  if◌then◌else◌, length,
}
use bagualu.Logging.{Texts, Buffer, add}

pub record LineWriter : Type 0 where
  pub service : String
  pub stream : String
  pub pending : List ℕ

-- buffer.Writer(service, stream)
unfoldable pub writer : String → String → LineWriter
writer service stream = record { service = service; stream = stream; pending = [] }

abbrev prepend : ℕ → Option (List ℕ × List ℕ) → Option (List ℕ × List ℕ)
prepend c none = none
prepend c (some (line, rest)) = some (c ∷ line, rest)

-- strings.IndexByte(pending, '\n') with pending[:index] and pending[index+1:]
unfoldable pub first_line : List ℕ → Option (List ℕ × List ℕ)
first_line [] = none
first_line (c ∷ s) =
    let later = first_line s in if c == b'\n' then some ([], s) else prepend c later

-- strings.TrimSuffix(line, "\r")
unfoldable pub trim_return : List ℕ → List ℕ
trim_return [] = []
trim_return (c ∷ []) = if c == b'\r' then [] else c ∷ []
trim_return (c ∷ d ∷ s) = c ∷ trim_return (d ∷ s)

module _ (t : Texts) (text : List ℕ → String) (now : ℕ) where
  -- One round of the loop of Write: the line goes to the buffer.
  unfoldable pub add_line : LineWriter → List ℕ → Buffer → Buffer
  unfolding trim_return
  add_line w line b = add t now w.service w.stream "" (text (trim_return line)) b

  -- The loop's test and its body, with the next round.
  unfoldable pub next_line :
      (LineWriter → Buffer → Option (LineWriter × Buffer))
      → Option (List ℕ × List ℕ)
      → LineWriter
      → Buffer
      → Option (LineWriter × Buffer)
  unfolding add_line
  next_line again none w b = some (w, b)
  next_line again (some (line, rest)) w b = again (record w { pending = rest }) (add_line w line b)

  -- The loop of Write; `none` is out of fuel.
  unfoldable pub flush : ℕ → LineWriter → Buffer → Option (LineWriter × Buffer)
  unfolding first_line next_line
  flush zero w b = none
  flush (suc fuel) w b = next_line (flush fuel) (first_line w.pending) w b

  unfoldable pub reported : ℕ → Option (LineWriter × Buffer) → Option (ℕ × LineWriter × Buffer)
  reported n none = none
  reported n (some (w, b)) = some (n, w, b)

  -- Write: the number of bytes that it reports, the writer and the buffer.
  unfoldable pub write : List ℕ → LineWriter → Buffer → Option (ℕ × LineWriter × Buffer)
  unfolding flush reported
  write bytes w b =
      let held = w.pending ++ bytes in
      reported (length bytes) (flush (suc (length held)) (record w { pending = held }) b)
