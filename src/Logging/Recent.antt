-- ===== src/Logging/Recent.antt =====
-- The records that Buffer.Add of internal/infrastructure/logging/buffer.go keeps.
use bagualu.Base.{
  ℕ, ◌+◌, ◌-◌, String, ◌≡◌, refl, sym, ap, ◌∙◌, inl, inr, false, List, [], ◌∷◌, ◌++◌, arith, ltb,
  ◌==◌, nat_eq, string_eq, if◌then◌else◌, Bool-cases, length, drop, last_of, last_of-last_of-append,
  append_assoc, append-nil, drop-nil,
}
use bagualu.Logging.{Texts, Buffer, Entry, new_buffer, add, detect_level, cut}

-- The arguments of a call of Add, with its time.
pub record Call : Type 0 where
  pub now : ℕ
  pub service : String
  pub stream : String
  pub level : String
  pub message : String

unfoldable pub add_all : Texts → List Call → Buffer → Buffer
add_all t [] b = b
add_all t (c ∷ calls) b = add_all t calls (add t c.now c.service c.stream c.level c.message b)

abbrev pub entry_for : Texts → ℕ → Call → Entry
entry_for t k c = record {
  id = k + 1;
  time = c.now;
  service = c.service;
  stream = c.stream;
  level = if c.level == "" then detect_level t (t.trim_space c.message) else c.level;
  message = t.trim_space c.message;
}

-- The whole log that an unbounded buffer would keep: the calls whose message is not blank,
-- numbered from k + 1.
abbrev pub whole_log : Texts → ℕ → List Call → List Entry
whole_log t k [] = []
whole_log t k (c ∷ calls) =
    let later = whole_log t (k + 1) calls in
    let same = whole_log t k calls in
    if t.trim_space c.message == "" then same else entry_for t k c ∷ later

cut-last_of : (n : ℕ) (l : List Entry) → cut n l ≡ last_of n l
cut-last_of n l = elim (Bool-cases (ltb n (length l))) [
  | inl e ↦ rw e refl
  | inr e ↦ rw e (ap (λ k. drop k l) (zero_minus n l e))
]
  where
    zero_minus : (n : ℕ) (l : List Entry) → ltb n (length l) ≡ false → 0 ≡ length l - n
    zero_minus n l e = ground arith

pub record IsRecent (t : Texts) (k : ℕ) (old : List Entry) (calls : List Call) (b b' : Buffer)
    : Type 0 where
  pub window : b'.entries ≡ last_of b.max_entries (old ++ whole_log t k calls)
  pub numbered : b'.next_id ≡ k + length (whole_log t k calls)
  pub capacity : b'.max_entries ≡ b.max_entries

IsRecent-add_all :
    (t : Texts) (calls : List Call) (old : List Entry) (b : Buffer)
    → b.entries ≡ last_of b.max_entries old
    → IsRecent t b.next_id old calls b (add_all t calls b)
unfolding add_all add
IsRecent-add_all t [] old b e = record {
  window = e ∙ ap (last_of b.max_entries) (sym (append-nil old));
  numbered = omega arith;
  capacity = refl;
}
IsRecent-add_all t (c ∷ calls) old b e = elim (Bool-cases (t.trim_space c.message == "")) [
  | inl blank ↦
      let r = IsRecent-add_all t calls old b e in
      simp blank (record {
        window = simp blank r.window;
        numbered = simp blank r.numbered;
        capacity = r.capacity;
      })
  | inr kept ↦
      let entry = entry_for t b.next_id c in
      let r =
        IsRecent-add_all t calls (old ++ (entry ∷ []))
          (record b {
            next_id = b.next_id + 1;
            entries = cut b.max_entries (b.entries ++ (entry ∷ []));
          })
          (cut-last_of b.max_entries (b.entries ++ (entry ∷ []))
            ∙ (ap (λ l. last_of b.max_entries (l ++ (entry ∷ []))) e
                ∙ last_of-last_of-append b.max_entries old (entry ∷ []))) in
      simp kept (record {
        window = simp kept (
            r.window
            ∙ ap (last_of b.max_entries)
                (append_assoc old (entry ∷ []) (whole_log t (b.next_id + 1) calls)));
        numbered = simp kept (omega (arith, r.numbered));
        capacity = r.capacity;
      })
]

-- After any calls of Add on a new buffer, its records are the last of the whole log, as many as the
-- capacity: each message that is not blank makes one record, trimmed, with the level that was given
-- or else detected, numbered from 1 in the order of the calls, and LatestID is the number of them.
pub add_all-IsRecent :
    (t : Texts) (n : ℕ) (calls : List Call)
    → IsRecent t 0 [] calls (new_buffer n) (add_all t calls (new_buffer n))
unfolding new_buffer
add_all-IsRecent t n calls =
    IsRecent-add_all t calls [] (new_buffer n) (sym (drop-nil (0 - (new_buffer n).max_entries)))
