-- ===== src/Logging/Writer/Cut.antt =====
-- One run of the loop of lineWriter.Write in internal/infrastructure/logging/buffer.go.
use bagualu.Base.{
  ℕ, zero, suc, ◌<◌, String, ◌≡◌, refl, ap, ◌∙◌, inl, inr, false, Option, none, some, List, [], ◌∷◌,
  ◌++◌, arith, ◌==◌, nat_eq, string_eq, nat_beq_iff, Bool-cases, Option-cases, length,
  length-append, All,
}
use bagualu.Logging.{Texts, Buffer}
use bagualu.Logging.Recent.{Call, add_all}
use bagualu.Logging.Writer.{
  LineWriter, first_line, trim_return, add_line, flush, prepend, next_line,
}

abbrev pub IsLine : List ℕ → Type 0
IsLine l = All (λ c. (c == b'\n') ≡ false) l

-- Each line with its newline, and an open line.
abbrev pub joined : List (List ℕ) → List ℕ → List ℕ
joined [] rest = rest
joined (line ∷ lines) rest = line ++ (b'\n' ∷ joined lines rest)

-- What a cut at the first newline leaves.
abbrev Cuts : List ℕ → Option (List ℕ × List ℕ) → Type 0
Cuts s none = IsLine s
Cuts s (some (line, rest)) = (s ≡ line ++ (b'\n' ∷ rest)) × IsLine line

Cuts-prepend :
    (c : ℕ) (s : List ℕ) (o : Option (List ℕ × List ℕ))
    → (c == b'\n') ≡ false
    → Cuts s o
    → Cuts (c ∷ s) (prepend c o)
Cuts-prepend c s none h k = (h, k)
Cuts-prepend c s (some (line, rest)) h k = (ap (λ l. c ∷ l) k.0, (h, k.1))

first_line-Cuts : (s : List ℕ) → Cuts s (first_line s)
unfolding first_line
first_line-Cuts [] = tt
first_line-Cuts (c ∷ s) = elim (Bool-cases (c == b'\n')) [
  | inl h ↦ rw h (ap (λ d. d ∷ s) ((nat_beq_iff c b'\n').0 h), tt)
  | inr h ↦ rw h (Cuts-prepend c s (first_line s) h (first_line-Cuts s))
]

-- The calls of Buffer.Add for some lines, at one time.
abbrev pub calls_for : (List ℕ → String) → ℕ → LineWriter → List (List ℕ) → List Call
calls_for text now w [] = []
calls_for text now w (line ∷ lines) =
    record {
      now = now;
      service = w.service;
      stream = w.stream;
      level = "";
      message = text (trim_return line);
    }
    ∷ calls_for text now w lines

-- A writer that holds `held` and a buffer, after the loop of Write.
pub record Flushed (t : Texts) (text : List ℕ → String) (now fuel : ℕ) (w : LineWriter) (b : Buffer)
    : Type 0 where
  pub lines : List (List ℕ)
  pub rest : List ℕ
  pub ends :
      flush t text now fuel w b
      ≡ some (record w { pending = rest }, add_all t (calls_for text now w lines) b)
  pub splits : w.pending ≡ joined lines rest
  pub whole : All IsLine lines
  pub open_line : IsLine rest

pub flush-Flushed :
    (t : Texts) (text : List ℕ → String) (now fuel : ℕ) (w : LineWriter) (b : Buffer)
    → length w.pending < fuel
    → Flushed t text now fuel w b
unfolding flush add_all add_line
flush-Flushed t text now zero w b h = absurd (omega arith)
flush-Flushed t text now (suc fuel) w b h = elim (Option-cases (first_line w.pending)) [
  | inl e ↦ record {
    lines = [];
    rest = w.pending;
    ends = rw (e, next_line) refl;
    splits = refl;
    whole = tt;
    open_line = rw e at (first_line-Cuts w.pending);
  }
  | inr ((line, rest), e) ↦
      let cut : Cuts w.pending (some (line, rest)) = rw e at (first_line-Cuts w.pending) in
      let later =
        flush-Flushed t text now fuel (record w { pending = rest }) (add_line t text now w line b)
          (omega (arith, ap length cut.0, length-append line (b'\n' ∷ rest))) in
      record {
        lines = line ∷ later.lines;
        rest = later.rest;
        ends = rw (e, next_line) later.ends;
        splits = cut.0 ∙ ap (λ l. line ++ (b'\n' ∷ l)) later.splits;
        whole = (cut.1, later.whole);
        open_line = later.open_line;
      }
]
