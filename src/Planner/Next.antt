-- ===== src/Planner/Next.antt =====
-- The node that nextThroughput of internal/application/automatic_tests.go chooses.
use bagualu.Base.{
  ℕ, ◌≤◌, String, ◌≡◌, refl, sym, ◌⊎◌, inl, inr, Bool, true, false, Option, none, some, List, [],
  ◌∷◌, arith, if◌then◌else◌, Bool-cases, All,
}
use bagualu.Planner.{
  Node, Policy, Times, Candidate, comes_before, same_time, earlier, insert_candidate,
  sort_candidates, is_due, throughput_candidates, head_node, next_throughput,
}

-- No time, or a time not later than the other.
abbrev pub NotLater : Option ℕ → Option ℕ → Type 0
NotLater none b = Unit
NotLater (some a) none = ⊥
NotLater (some a) (some b) = a ≤ b

NotLater-refl : (a : Option ℕ) → NotLater a a
NotLater-refl none = tt
NotLater-refl (some a) = omega arith

NotLater-trans : (a b c : Option ℕ) → NotLater a b → NotLater b c → NotLater a c
NotLater-trans none b c h g = tt
NotLater-trans (some a) none c h g = absurd h
NotLater-trans (some a) (some b) none h g = absurd g
NotLater-trans (some a) (some b) (some c) h g = omega arith

order_true :
    (x y : Option ℕ) (tie : Bool)
    → (if same_time x y then tie else earlier x y) ≡ true
    → NotLater x y
unfolding same_time earlier
order_true none y tie e = tt
order_true (some a) none tie e = absurd (cc e)
order_true (some a) (some b) tie e = ground arith

order_false :
    (x y : Option ℕ) (tie : Bool)
    → (if same_time x y then tie else earlier x y) ≡ false
    → NotLater y x
unfolding same_time earlier
order_false none none tie e = tt
order_false none (some b) tie e = absurd (cc e)
order_false (some a) none tie e = tt
order_false (some a) (some b) tie e = ground arith

module _ (text_lt : String → String → Bool) where
  comes_before-NotLater :
      (a b : Candidate) → comes_before text_lt a b ≡ true → NotLater a.last b.last
  unfolding comes_before
  comes_before-NotLater a b e = order_true a.last b.last (text_lt a.node.id b.node.id) e

  comes_after-NotLater :
      (a b : Candidate) → comes_before text_lt a b ≡ false → NotLater b.last a.last
  unfolding comes_before
  comes_after-NotLater a b e = order_false a.last b.last (text_lt a.node.id b.node.id) e

  abbrev First : Candidate → Candidate → Type 0
  First a b = NotLater a.last b.last

  -- The first candidate is not later than the others.
  abbrev Leads : List Candidate → Type 0
  Leads [] = Unit
  Leads (h ∷ t) = All (First h) t

  insert-All :
      (P : Candidate → Type 0) (x : Candidate) (l : List Candidate)
      → P x
      → All P l
      → All P (insert_candidate text_lt x l)
  unfolding insert_candidate
  insert-All P x [] px each = (px, tt)
  insert-All P x (y ∷ ys) px each = elim (Bool-cases (comes_before text_lt y x)) [
    | inl e ↦ rw e (each.0, insert-All P x ys px each.1)
    | inr e ↦ rw e (px, each)
  ]

  All-insert :
      (P : Candidate → Type 0) (x : Candidate) (l : List Candidate)
      → All P (insert_candidate text_lt x l)
      → P x × All P l
  unfolding insert_candidate
  All-insert P x [] = λ h. (h.0, tt)
  All-insert P x (y ∷ ys) = elim (Bool-cases (comes_before text_lt y x)) [
    | inl e ↦ rw e (λ h. let rest = All-insert P x ys h.1 in (rest.0, (h.0, rest.1)))
    | inr e ↦ rw e (λ h. h)
  ]

  sort-All :
      (P : Candidate → Type 0) (l : List Candidate) → All P l → All P (sort_candidates text_lt l)
  unfolding sort_candidates
  sort-All P [] each = tt
  sort-All P (x ∷ l) each = insert-All P x (sort_candidates text_lt l) each.0 (sort-All P l each.1)

  All-sort :
      (P : Candidate → Type 0) (l : List Candidate) → All P (sort_candidates text_lt l) → All P l
  unfolding sort_candidates
  All-sort P [] each = tt
  All-sort P (x ∷ l) each =
      let rest = All-insert P x (sort_candidates text_lt l) each in (rest.0, All-sort P l rest.1)

  All-First : (x y : Candidate) (l : List Candidate) → First x y → All (First y) l → All (First x) l
  All-First x y [] h each = tt
  All-First x y (z ∷ l) h each =
      (NotLater-trans x.last y.last z.last h each.0, All-First x y l h each.1)

  insert-Leads :
      (x : Candidate) (l : List Candidate) → Leads l → Leads (insert_candidate text_lt x l)
  unfolding insert_candidate
  insert-Leads x [] h = tt
  insert-Leads x (y ∷ ys) h = elim (Bool-cases (comes_before text_lt y x)) [
    | inl e ↦ rw e (insert-All (First y) x ys (comes_before-NotLater y x e) h)
    | inr e ↦ let first = comes_after-NotLater y x e in rw e (first, All-First x y ys first h)
  ]

  sort-Leads : (l : List Candidate) → Leads (sort_candidates text_lt l)
  unfolding sort_candidates
  sort-Leads [] = tt
  sort-Leads (x ∷ l) = insert-Leads x (sort_candidates text_lt l) (sort-Leads l)

  module _ (now : ℕ) (policy : Policy) (attempts results : Times) where
    abbrev due : Node → Bool
    due n = is_due text_lt now policy attempts results n

    -- What nextThroughput answers: no node only if none is due, and else a node that is due and
    -- whose last attempt is not later than that of any other due node.
    abbrev pub IsNext : List Node → Option Node → Type 0
    IsNext nodes none = All (λ m. due m ≡ false) nodes
    IsNext nodes (some n) =
        (due n ≡ true) × All (λ m. (due m ≡ false) ⊎ NotLater (attempts n.id) (attempts m.id)) nodes

    abbrev Made : Candidate → Type 0
    Made c = (due c.node ≡ true) × (c.last ≡ attempts c.node.id)

    candidates-Made :
        (ns : List Node) → All Made (throughput_candidates text_lt now policy attempts results ns)
    unfolding throughput_candidates
    candidates-Made [] = tt
    candidates-Made (n ∷ ns) = elim (Bool-cases (due n)) [
      | inl e ↦ rw e ((e, refl), candidates-Made ns)
      | inr e ↦ rw e (candidates-Made ns)
    ]

    -- What holds of each candidate holds of each node that is due.
    All-candidates :
        (Q : Option ℕ → Type 0) (ns : List Node)
        → All (λ c. Q c.last) (throughput_candidates text_lt now policy attempts results ns)
        → All (λ m. (due m ≡ false) ⊎ Q (attempts m.id)) ns
    unfolding throughput_candidates
    All-candidates Q [] = λ h. tt
    All-candidates Q (n ∷ ns) = elim (Bool-cases (due n)) [
      | inl e ↦ rw e (λ h. (inr h.0, All-candidates Q ns h.1))
      | inr e ↦ rw e (λ h. (inl refl, All-candidates Q ns h))
    ]

    none_due : (l : List Node) → All (λ m. (due m ≡ false) ⊎ ⊥) l → All (λ m. due m ≡ false) l
    none_due [] h = tt
    none_due (m ∷ l) h = (elim h.0 [ inl e ↦ e | inr e ↦ absurd e ], none_due l h.1)

    head-IsNext :
        (nodes : List Node) (l : List Candidate)
        → Leads l
        → All Made l
        → ((P : Candidate → Type 0)
            → All P l
            → All P (throughput_candidates text_lt now policy attempts results nodes))
        → IsNext nodes (head_node text_lt l)
    head-IsNext nodes [] lead made back =
        none_due nodes (All-candidates (λ t. ⊥) nodes (back (λ c. ⊥) tt))
    head-IsNext nodes (c ∷ cs) lead made back = (
      made.0.0,
      All-candidates (λ t. NotLater (attempts c.node.id) t) nodes
          (rw (sym made.0.1) (back (First c) (NotLater-refl c.last, lead))),
    )

    -- nextThroughput answers with no node only if none is due: active, without a result since the
    -- start of the day, and without an attempt within the retry interval. Otherwise it answers with
    -- a node that is due and whose last attempt is not later than that of any other due node, where
    -- a node without an attempt comes first.
    pub next_throughput-IsNext :
        (nodes : List Node)
        → IsNext nodes (next_throughput text_lt now policy attempts results nodes)
    unfolding next_throughput
    next_throughput-IsNext nodes =
        let cs = throughput_candidates text_lt now policy attempts results nodes in
        head-IsNext nodes (sort_candidates text_lt cs) (sort-Leads cs)
          (sort-All Made cs (candidates-Made nodes)) (λ P. All-sort P cs)
