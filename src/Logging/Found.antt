-- ===== src/Logging/Found.antt =====
-- The records that Buffer.Entries of internal/infrastructure/logging/buffer.go answers with.
use bagualu.Base.{
  ℕ, zero, suc, ◌≤◌, ◌≡◌, refl, ap, inl, inr, Bool, ◌||◌, List, [], ◌∷◌, arith, ltb, leb,
  if◌then◌else◌, Bool-cases, length, take, length-take,
}
use bagualu.Logging.{
  Texts, Buffer, Entry, Query, matches, collect, entries_for, reverse_onto, room_for,
}

abbrev pub filter : (Entry → Bool) → List Entry → List Entry
filter p [] = []
filter p (e ∷ l) = if p e then e ∷ filter p l else filter p l

collect-take :
    (t : Texts) (q : Query) (l : List Entry) (room : ℕ)
    → collect t q room l ≡ take room (filter (matches t q) l)
unfolding collect
collect-take t q [] zero = refl
collect-take t q [] (suc room) = refl
collect-take t q (e ∷ older) zero = refl
collect-take t q (e ∷ older) (suc room) = elim (Bool-cases (matches t q e)) [
  | inl yes_it ↦ rw yes_it (ap (λ l. e ∷ l) (collect-take t q older room))
  | inr not_it ↦ rw not_it (collect-take t q older (suc room))
]

-- Entries answers with the newest of the records that match the query, the newest first, as many as
-- the limit allows, where a limit that is not positive or exceeds the capacity is the capacity; so
-- never with more than the capacity.
pub entries_for-newest :
    (t : Texts) (q : Query) (b : Buffer)
    → (entries_for t q b ≡ take (room_for q b) (filter (matches t q) (reverse_onto b.entries [])))
      × (length (entries_for t q b) ≤ b.max_entries)
unfolding entries_for
entries_for-newest t q b =
    let l = filter (matches t q) (reverse_onto b.entries []) in
    let same = collect-take t q (reverse_onto b.entries []) (room_for q b) in
    (
      same,
      rw same (elim (Bool-cases (leb q.limit 0 || ltb b.max_entries q.limit)) [
        | inl e ↦ rw e (omega (arith, length-take b.max_entries l))
        | inr e ↦ rw e (
            let small : q.limit ≤ b.max_entries = ground arith in
            omega (arith, length-take q.limit l))
      ]),
    )
