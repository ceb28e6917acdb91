-- ===== src/Logging/Writer/Lines.antt =====
-- The lines that lineWriter.Write of internal/infrastructure/logging/buffer.go hands to Buffer.Add,
-- however the bytes are cut into writes.
use mathlib.Core.List.{map-append}
use bagualu.Base.{
  ℕ, suc, String, ◌≡◌, refl, sym, ap, ◌∙◌, Option, none, some, List, [], ◌∷◌, ◌++◌, map, arith,
  length, All, All-append, append_assoc, append-nil, All-append,
}
use bagualu.Logging.{Texts, Buffer}
use bagualu.Logging.Recent.{Call, add_all}
use bagualu.Logging.Writer.{LineWriter, writer, trim_return, reported, write}
use bagualu.Logging.Writer.Cut.{IsLine, joined, calls_for, flush-Flushed}

-- The bytes of a sequence of writes, each with the time of its lines.
abbrev pub all_bytes : List (ℕ × List ℕ) → List ℕ
all_bytes [] = []
all_bytes ((now, bytes) ∷ chunks) = bytes ++ all_bytes chunks

module _ (t : Texts) (text : List ℕ → String) where
  write_next :
      (LineWriter → Buffer → Option (LineWriter × Buffer))
      → Option (ℕ × LineWriter × Buffer)
      → Option (LineWriter × Buffer)
  write_next again none = none
  write_next again (some (n, w, b)) = again w b

  -- A sequence of writes.
  unfoldable pub write_all : List (ℕ × List ℕ) → LineWriter → Buffer → Option (LineWriter × Buffer)
  unfolding write_next
  write_all [] w b = some (w, b)
  write_all ((now, bytes) ∷ chunks) w b = write_next (write_all chunks) (write t text now bytes w b)

-- The messages of the calls for some lines.
abbrev pub messages_of : (List ℕ → String) → List (List ℕ) → List String
messages_of text [] = []
messages_of text (line ∷ lines) = text (trim_return line) ∷ messages_of text lines

abbrev pub IsCallOf : LineWriter → Call → Type 0
IsCallOf w c = (c.service ≡ w.service) × (c.stream ≡ w.stream) × (c.level ≡ "")

-- The writer and the buffer after a sequence of writes: the bytes spell the lines and the rest,
-- and the buffer had one call of Add for each line.
pub record Written (t : Texts) (text : List ℕ → String) (w : LineWriter) (b : Buffer)
    (bytes : List ℕ) (o : Option (LineWriter × Buffer)) : Type 0 where
  pub lines : List (List ℕ)
  pub rest : List ℕ
  pub calls : List Call
  pub ends : o ≡ some (record w { pending = rest }, add_all t calls b)
  pub spells : bytes ≡ joined lines rest
  pub whole : All IsLine lines
  pub open_line : IsLine rest
  pub said : map (λ c. c.message) calls ≡ messages_of text lines
  pub from_writer : All (IsCallOf w) calls

calls_for-messages :
    (text : List ℕ → String) (now : ℕ) (w : LineWriter) (lines : List (List ℕ))
    → (map (λ c. c.message) (calls_for text now w lines) ≡ messages_of text lines)
      × All (IsCallOf w) (calls_for text now w lines)
calls_for-messages text now w [] = (refl, tt)
calls_for-messages text now w (line ∷ lines) =
    let later = calls_for-messages text now w lines in
    (ap (λ l. text (trim_return line) ∷ l) later.0, ((refl, refl, refl), later.1))

messages_of-append :
    (text : List ℕ → String) (l k : List (List ℕ))
    → messages_of text (l ++ k) ≡ messages_of text l ++ messages_of text k
messages_of-append text [] k = refl
messages_of-append text (x ∷ l) k = ap (λ m. text (trim_return x) ∷ m) (messages_of-append text l k)

joined-append :
    (l k : List (List ℕ)) (rest : List ℕ) → joined l (joined k rest) ≡ joined (l ++ k) rest
joined-append [] k rest = refl
joined-append (x ∷ l) k rest = ap (λ s. x ++ (b'\n' ∷ s)) (joined-append l k rest)

joined-more :
    (l : List (List ℕ)) (rest more : List ℕ) → joined l rest ++ more ≡ joined l (rest ++ more)
joined-more [] rest more = refl
joined-more (x ∷ l) rest more =
    append_assoc x (b'\n' ∷ joined l rest) more
    ∙ ap (λ s. x ++ (b'\n' ∷ s)) (joined-more l rest more)

add_all-append :
    (t : Texts) (l k : List Call) (b : Buffer) → add_all t (l ++ k) b ≡ add_all t k (add_all t l b)
unfolding add_all
add_all-append t [] k b = refl
add_all-append t (c ∷ l) k b = add_all-append t l k _

write_all-Written :
    (t : Texts) (text : List ℕ → String) (chunks : List (ℕ × List ℕ)) (w : LineWriter) (b : Buffer)
    → IsLine w.pending
    → Written t text w b (w.pending ++ all_bytes chunks) (write_all t text chunks w b)
unfolding write_all add_all write
write_all-Written t text [] w b h = record {
  lines = [];
  rest = w.pending;
  calls = [];
  ends = refl;
  spells = append-nil w.pending;
  whole = tt;
  open_line = h;
  said = refl;
  from_writer = tt;
}
write_all-Written t text ((now, bytes) ∷ chunks) w b h =
    let held = w.pending ++ bytes in
    let one =
      flush-Flushed t text now (suc (length held)) (record w { pending = held }) b (omega arith) in
    let w' : LineWriter = record w { pending = one.rest } in
    let calls = calls_for text now w one.lines in
    let later = write_all-Written t text chunks w' (add_all t calls b) one.open_line in
    let spoken = calls_for-messages text now w one.lines in
    record {
      lines = one.lines ++ later.lines;
      rest = later.rest;
      calls = calls ++ later.calls;
      ends =
          rw (one.ends, reported, write_next)
            (later.ends
              ∙ ap (λ y. some (record w { pending = later.rest }, y))
                  (sym (add_all-append t calls later.calls b)));
      spells =
          sym (append_assoc w.pending bytes (all_bytes chunks))
          ∙ ap (λ l. l ++ all_bytes chunks) one.splits
          ∙ joined-more one.lines one.rest (all_bytes chunks)
          ∙ ap (joined one.lines) later.spells
          ∙ joined-append one.lines later.lines later.rest;
      whole = All-append IsLine one.lines later.lines one.whole later.whole;
      open_line = later.open_line;
      said = simp (map-append, spoken.0, later.said, messages_of-append);
      from_writer = All-append (IsCallOf w) calls later.calls spoken.1 later.from_writer;
    }

-- A new writer takes any sequence of writes: they end, and however they cut the bytes, the
-- buffer gets one call of Add for each newline, in order, with the text between two newlines
-- less its carriage return, in the service and stream of the writer. What follows the last
-- newline is kept for the next write. The bytes determine the lines, since no line holds a newline.
pub write_all-lines :
    (t : Texts) (text : List ℕ → String) (service stream : String) (chunks : List (ℕ × List ℕ))
    (b : Buffer)
    → let w = writer service stream in
      Written t text w b (all_bytes chunks) (write_all t text chunks w b)
unfolding writer
write_all-lines t text service stream chunks b =
    write_all-Written t text chunks (writer service stream) b tt
