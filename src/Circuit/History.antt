-- ===== src/Circuit/History.antt =====
-- A whole history of one endpoint in internal/application/endpoint_circuit.go.
use bagualu.Base.{
  ℕ, ◌+◌, ◌≤◌, ◌<◌, String, ◌≡◌, refl, ◌∙◌, ◌≢◌, ◌⊎◌, inl, inr, Bool, true, false, not, ◌&&◌, ◌||◌,
  Option, none, some, List, [], ◌∷◌, arith, ltb, ◌==◌, nat_eq, string_eq, str_eq_iff, if◌then◌else◌,
  Bool-cases, Option-cases,
}
use bagualu.Circuit.{
  Node, Outcome, Entry, EndpointCircuit, before, on_entry, on_open, probe, record_outcome,
  record_entry, entry_of, put, is_unreachable, new_endpoint_circuit,
}

pub data Event : Type 0 where
  -- Before, of the node with the ID
  asked : ℕ → String → Event
  recorded : ℕ → String → Outcome → Event

abbrev pub at : String → String → Node
at ip i = record { id = i; endpoint_ip = ip }

-- The circuit after a history of the endpoint, the newest event first.
unfoldable pub after : EndpointCircuit → String → List Event → EndpointCircuit
after c ip [] = c
after c ip (asked now i ∷ older) = (before now (at ip i) (after c ip older)).1
after c ip (recorded now i outcome ∷ older) =
    (record_outcome now (at ip i) outcome (after c ip older)).1

-- Whether an outcome counts as a failure of the endpoint, and whether it clears the failures.
abbrev pub counts : Outcome → Bool
counts o = not o.infrastructure && (not o.success && is_unreachable o.error_code)

abbrev pub clears : Outcome → Bool
clears o = not o.infrastructure && o.success

-- The failures since the last success.
abbrev pub streak : List Event → ℕ
streak [] = 0
streak (asked now i ∷ older) = streak older
streak (recorded now i o ∷ older) =
    if clears o then 0 else if counts o then streak older + 1 else streak older

-- When and by which node the last failure was recorded.
abbrev pub last_failure : List Event → ℕ × String
last_failure [] = (0, "")
last_failure (asked now i ∷ older) = last_failure older
last_failure (recorded now i o ∷ older) = if counts o then (now, i) else last_failure older

pub record IsTold (limit cooldown : ℕ) (h : List Event) (e : Entry) : Type 0 where
  pub counted : e.failures ≡ streak h
  pub closed : (limit ≤ streak h) ⊎ (e.open_until ≡ none)
  pub opened :
      (streak h < limit)
      ⊎ ((e.open_until ≡ some ((last_failure h).0 + cooldown))
          × (e.representative ≡ (last_failure h).1))

entry_at : EndpointCircuit → String → Entry
entry_at c ip = entry_of (c.entries ip)

put-same : (ip : String) (e : Entry) (m : String → Option Entry) → put ip e m ip ≡ some e
put-same ip e m = let iff = str_eq_iff ip ip in ground arith

record_entry-IsTold :
    (limit cooldown now : ℕ) (i : String) (o : Outcome) (h : List Event) (e : Entry)
    → o.infrastructure ≡ false
    → 0 < limit
    → IsTold limit cooldown h e
    → IsTold limit cooldown (recorded now i o ∷ h) (record_entry limit cooldown now i o e).1
unfolding record_entry
record_entry-IsTold limit cooldown now i o h e real pos t =
    let counted = t.counted in
    let closed = t.closed in
    let opened = t.opened in
    elim (Bool-cases o.success) [
      | inl good ↦ rw (real, good) (record { counted = refl; closed = inr refl; opened = inl pos })
      | inr bad ↦
          rw (real, bad)
            (elim (Bool-cases (is_unreachable o.error_code)) [
              | inl down ↦ rw down (elim (Bool-cases (ltb (e.failures + 1) limit)) [
                | inl few ↦ rw few (record {
                  counted = rw down (omega (arith, counted));
                  closed = rw down (ground arith);
                  opened = inl (rw down (ground arith));
                })
                | inr many ↦ rw many (record {
                  counted = rw down (omega (arith, counted));
                  closed = inl (rw down (ground arith));
                  opened = inr (rw down (refl, refl));
                })
              ])
              | inr other ↦ rw other (record {
                counted = rw other counted;
                closed = rw other closed;
                opened = rw other opened;
              })
            ])
    ]

same_entry :
    (limit cooldown : ℕ) (h h' : List Event) (e e' : Entry)
    → IsTold limit cooldown h e
    → e'.failures ≡ e.failures
    → e'.open_until ≡ e.open_until
    → e'.representative ≡ e.representative
    → streak h' ≡ streak h
    → last_failure h' ≡ last_failure h
    → IsTold limit cooldown h' e'
same_entry limit cooldown h h' e e' t f u r s l = record {
  counted = rw (f, s) t.counted;
  closed = rw (u, s) t.closed;
  opened = rw (u, r, s, l) t.opened;
}

pub self_eq : (s : String) → (s == s) ≡ true
self_eq s = let iff = str_eq_iff s s in ground arith

abbrev Keeps : Entry → Entry → Type 0
Keeps e e' =
    (e'.failures ≡ e.failures)
    × (e'.open_until ≡ e.open_until)
    × (e'.representative ≡ e.representative)

on_entry-Keeps :
    (now : ℕ) (i ip : String) (c : EndpointCircuit) (o : Option Entry)
    → c.entries ip ≡ o
    → Keeps (entry_of o) (entry_at (on_entry now (at ip i) o c).1 ip)
unfolding entry_at on_entry on_open probe
on_entry-Keeps now i ip c none is = rw is (refl, refl, refl)
on_entry-Keeps now i ip c (some entry) is = elim (Option-cases entry.open_until) [
  | inl shut ↦ rw shut (rw is (refl, shut, refl))
  | inr (until, set) ↦ rw set (elim (Bool-cases (ltb now until)) [
    | inl early ↦ rw early (rw is (refl, set, refl))
    | inr late ↦
        rw late (elim (Bool-cases (entry.probe_in_flight || not (i == entry.representative))) [
          | inl other ↦ rw other (rw is (refl, set, refl))
          | inr probed ↦ rw (probed, self_eq ip) (refl, refl, refl)
        ])
  ])
]

-- Asking changes no more than the probe flag.
before-Keeps :
    (now : ℕ) (i ip : String) (c : EndpointCircuit)
    → Keeps (entry_at c ip) (entry_at (before now (at ip i) c).1 ip)
unfolding entry_at before
before-Keeps now i ip c = elim (Bool-cases (ip == "")) [
  | inl e ↦ rw e (refl, refl, refl)
  | inr e ↦ rw e (on_entry-Keeps now i ip c (c.entries ip) refl)
]

recorded-IsTold :
    (now : ℕ) (i ip : String) (o : Outcome) (h : List Event) (c : EndpointCircuit)
    → ip ≢ ""
    → 0 < c.failure_limit
    → IsTold c.failure_limit c.cooldown h (entry_at c ip)
    → IsTold c.failure_limit c.cooldown
        (recorded now i o ∷ h)
        (entry_at (record_outcome now (at ip i) o c).1 ip)
unfolding entry_at record_outcome
recorded-IsTold now i ip o h c named pos t =
    let iff = str_eq_iff ip "" in
    let unnamed : (ip == "") ≡ false = ground arith in
    elim (Bool-cases o.infrastructure) [
      | inl not_its ↦
          rw (unnamed, not_its)
            (record { counted = t.counted; closed = t.closed; opened = t.opened })
      | inr its ↦
          simp (unnamed, its, self_eq ip)
            (record_entry-IsTold c.failure_limit c.cooldown now i o h (entry_of (c.entries ip)) its
              pos t)
    ]

record_outcome-limits :
    (now : ℕ) (node : Node) (o : Outcome) (c : EndpointCircuit)
    → ((record_outcome now node o c).1.failure_limit ≡ c.failure_limit)
      × ((record_outcome now node o c).1.cooldown ≡ c.cooldown)
unfolding record_outcome
record_outcome-limits now node o c =
    elim (Bool-cases ((node.endpoint_ip == "") || o.infrastructure)) [
      | inl e ↦ rw e (refl, refl)
      | inr e ↦ rw e (refl, refl)
    ]

before-limits :
    (now : ℕ) (node : Node) (c : EndpointCircuit)
    → ((before now node c).1.failure_limit ≡ c.failure_limit)
      × ((before now node c).1.cooldown ≡ c.cooldown)
unfolding before on_entry on_open probe
before-limits now node c = ground arith

after-limits :
    (c : EndpointCircuit) (ip : String) (h : List Event)
    → ((after c ip h).failure_limit ≡ c.failure_limit) × ((after c ip h).cooldown ≡ c.cooldown)
unfolding after
after-limits c ip [] = (refl, refl)
after-limits c ip (asked now i ∷ older) =
    let kept = before-limits now (at ip i) (after c ip older) in
    let rec = after-limits c ip older in (kept.0 ∙ rec.0, kept.1 ∙ rec.1)
after-limits c ip (recorded now i o ∷ older) =
    let kept = record_outcome-limits now (at ip i) o (after c ip older) in
    let rec = after-limits c ip older in (kept.0 ∙ rec.0, kept.1 ∙ rec.1)

IsTold-after :
    (c : EndpointCircuit) (ip : String) (h : List Event)
    → ip ≢ ""
    → 0 < c.failure_limit
    → c.entries ip ≡ none
    → IsTold c.failure_limit c.cooldown h (entry_at (after c ip h) ip)
unfolding after entry_at
IsTold-after c ip [] named pos fresh =
    rw fresh (record { counted = refl; closed = inr refl; opened = inl pos })
IsTold-after c ip (asked now i ∷ older) named pos fresh =
    let kept = before-Keeps now i ip (after c ip older) in
    same_entry c.failure_limit c.cooldown older (asked now i ∷ older) _ _
      (IsTold-after c ip older named pos fresh) kept.0 kept.1 kept.2 refl refl
IsTold-after c ip (recorded now i o ∷ older) named pos fresh =
    let same = after-limits c ip older in
    let told = IsTold-after c ip older named pos fresh in
    let now_told : IsTold (after c ip older).failure_limit (after c ip older).cooldown
        (recorded now i o ∷ older)
        (entry_at (record_outcome now (at ip i) o (after c ip older)).1 ip) =
      recorded-IsTold now i ip o older (after c ip older) named (rw same.0 pos)
        (rw (same.0, same.1) told) in
    rw (same.0, same.1) at now_told

-- After any history of Before and Record for one endpoint, its entry counts the failures since the
-- last success, where only network_unreachable and host_unreachable count and an infrastructure
-- outcome is ignored. The circuit is open exactly while that count is at least the failure limit,
-- until the time of the last failure plus the cooldown, with the node of that failure as the
-- representative.
pub after-IsTold :
    (limit cooldown : ℕ) (ip : String) (h : List Event)
    → ip ≢ ""
    → let c = new_endpoint_circuit limit cooldown in
      IsTold c.failure_limit c.cooldown h (entry_of ((after c ip h).entries ip))
unfolding new_endpoint_circuit entry_at
after-IsTold limit cooldown ip h named =
    IsTold-after (new_endpoint_circuit limit cooldown) ip h named (ground arith) refl
