-- ===== src/Logging/Tests.antt =====
-- A buffer of two records.
use bagualu.Base.{
  ℕ, ◌≤◌, String, ◌≡◌, refl, Option, none, some, List, [], ◌∷◌, map, ◌==◌, nat_eq, string_eq,
  if◌then◌else◌, length, take,
}
use bagualu.Logging.{
  Texts, Buffer, Entry, Query, new_buffer, add, detect_level, entries_for, matches, room_for,
  reverse_onto,
}
use bagualu.Logging.Writer.{LineWriter, writer, write, flush, first_line, add_line}
use bagualu.Logging.Writer.Lines.{all_bytes, write_all, write_all-lines, Written}
use bagualu.Logging.Recent.{Call, add_all, IsRecent, add_all-IsRecent}
use bagualu.Logging.Found.{entries_for-newest, filter}

abbrev texts : Texts
texts = record { trim_space = λ s. s; to_lower = λ s. s; contains = λ s t. s == t }

abbrev said : String → String → Call
said level message = record {
  now = 5;
  service = "mihomo";
  stream = "stdout";
  level = level;
  message = message;
}

abbrev calls : List Call
calls = said "info" "one" ∷ said "" "" ∷ said "" "timeout" ∷ said "info" "three" ∷ []

abbrev line : ℕ → String → String → Entry
line i level message = record {
  id = i;
  time = 5;
  service = "mihomo";
  stream = "stdout";
  level = level;
  message = message;
}

kept :
    (add_all texts calls (new_buffer 2)).entries
    ≡ line 2 "error" "timeout" ∷ line 3 "info" "three" ∷ []
unfolding add_all add new_buffer detect_level
kept = refl

add_all-IsRecent_example :
    IsRecent texts 0 [] calls (new_buffer 2) (add_all texts calls (new_buffer 2))
add_all-IsRecent_example = add_all-IsRecent texts 2 calls

abbrev errors : Query
errors = record { service = ""; level = "error"; query = ""; since = 0; limit = 9 }

entries_for-newest_example :
    let b = add_all texts calls (new_buffer 2) in
    (entries_for texts errors b
      ≡ take (room_for errors b) (filter (matches texts errors) (reverse_onto b.entries [])))
    × (length (entries_for texts errors b) ≤ b.max_entries)
entries_for-newest_example = entries_for-newest texts errors (add_all texts calls (new_buffer 2))

abbrev sized : List ℕ → String
sized l = if length l == 1 then "one" else "more"

-- a\r\n and bb\n in three writes
abbrev chunks : List (ℕ × List ℕ)
chunks = (1, b'a' ∷ b'\r' ∷ []) ∷ (2, b'\n' ∷ b'b' ∷ []) ∷ (3, b'b' ∷ b'\n' ∷ b'c' ∷ []) ∷ []

write_all-lines_example :
    Written texts sized
      (writer "mihomo" "stderr")
      (new_buffer 2)
      (all_bytes chunks)
      (write_all texts sized chunks (writer "mihomo" "stderr") (new_buffer 2))
write_all-lines_example = write_all-lines texts sized "mihomo" "stderr" chunks (new_buffer 2)

messages : Option (LineWriter × Buffer) → List String
messages none = []
messages (some (w, b)) = map (λ e. e.message) b.entries

written :
    messages (write_all texts sized chunks (writer "mihomo" "stderr") (new_buffer 2))
    ≡ "one" ∷ "more" ∷ []
unfolding messages write_all write writer flush add_line add detect_level new_buffer first_line
written = refl
