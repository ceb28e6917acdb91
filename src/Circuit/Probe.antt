-- ===== src/Circuit/Probe.antt =====
-- Which nodes an open circuit of internal/application/endpoint_circuit.go lets through.
use bagualu.Base.{
  ℕ, ◌+◌, ◌≤◌, String, ◌≡◌, refl, ◌≢◌, ◌⊎◌, inl, inr, Bool, true, false, ◌||◌, some, List, [], ◌∷◌,
  arith, ltb, ◌==◌, nat_eq, string_eq, str_eq_iff, if◌then◌else◌, Bool-cases, All,
}
use bagualu.Circuit.{
  Outcome, Entry, EndpointCircuit, before, on_entry, on_open, probe, record_outcome, record_entry,
  entry_of, is_unreachable, Verdict, admitted, retry_at,
}
use bagualu.Circuit.History.{Event, asked, recorded, at, counts, clears, self_eq}

-- When Record answers that the circuit opened, Before refuses every node of the endpoint until the
-- cooldown has passed, with its end as RetryAt; from then on it admits the node whose failure
-- opened the circuit and refuses the others.
pub record-before :
    (t now : ℕ) (i j ip : String) (o : Outcome) (c : EndpointCircuit)
    → (record_outcome t (at ip i) o c).0 ≡ true
    → (before now (at ip j) (record_outcome t (at ip i) o c).1).0 ≡ (
        if ltb now (t + c.cooldown)
        then retry_at (t + c.cooldown)
        else if j == i
        then admitted
        else retry_at now)
unfolding record_outcome record_entry before on_entry on_open probe
record-before t now i j ip o c = elim (Bool-cases ((ip == "") || o.infrastructure)) [
  | inl none_of_it ↦ simp none_of_it (λ h. absurd (cc h))
  | inr its ↦ simp its (elim (Bool-cases o.success) [
    | inl good ↦ simp good (λ h. absurd (cc h))
    | inr bad ↦ simp bad (elim (Bool-cases (is_unreachable o.error_code)) [
      | inl down ↦
          simp down
            (elim (Bool-cases (ltb ((entry_of (c.entries ip)).failures + 1) c.failure_limit)) [
              | inl few ↦ simp few (λ h. absurd (cc h))
              | inr many ↦
                  let unnamed : (ip == "") ≡ false = ground arith in
                  simp (many, self_eq ip, unnamed)
                    (λ h. elim (Bool-cases (ltb now (t + c.cooldown))) [
                      | inl early ↦ simp early refl
                      | inr late ↦ simp late (elim (Bool-cases (j == i)) [
                        | inl same ↦ simp same refl
                        | inr other ↦ simp other refl
                      ])
                    ])
            ])
      | inr other ↦ simp other (λ h. absurd (cc h))
    ])
  ])
]

-- How many of the nodes that ask are admitted, the oldest event first.
abbrev one_if : Verdict → ℕ
one_if admitted = 1
one_if (retry_at t) = 0

unfoldable pub admissions : String → List Event → EndpointCircuit → ℕ
admissions ip [] c = 0
admissions ip (asked now i ∷ later) c =
    let (verdict, c') = before now (at ip i) c in one_if verdict + admissions ip later c'
admissions ip (recorded now i o ∷ later) c =
    admissions ip later (record_outcome now (at ip i) o c).1

-- The outcome neither clears the failures nor counts as one.
abbrev pub IsUncounted : Event → Type 0
IsUncounted (asked now i) = Unit
IsUncounted (recorded now i o) = (counts o ≡ false) × (clears o ≡ false)

pub record IsOpen (ip : String) (in_flight : Bool) (c : EndpointCircuit) : Type 0 where
  pub until : ℕ
  pub entry : Entry
  pub known : c.entries ip ≡ some entry
  pub timed : entry.open_until ≡ some until
  pub probing : entry.probe_in_flight ≡ in_flight

uncounted-IsOpen :
    (now : ℕ) (i ip : String) (o : Outcome) (b : Bool) (c : EndpointCircuit)
    → IsUncounted (recorded now i o)
    → IsOpen ip b c
    → IsOpen ip b (record_outcome now (at ip i) o c).1
unfolding record_outcome record_entry
uncounted-IsOpen now i ip o b c u s = elim (Bool-cases ((ip == "") || o.infrastructure)) [
  | inl none_of_it ↦ simp none_of_it s
  | inr its ↦
      let bad : o.success ≡ false = ground arith in
      let other : is_unreachable o.error_code ≡ false = ground arith in
      record {
        until = s.until;
        entry = s.entry;
        known = simp (its, bad, other, s.known, self_eq ip) refl;
        timed = s.timed;
        probing = s.probing;
      }
]

asked-IsOpen :
    (now : ℕ) (i ip : String) (b : Bool) (c : EndpointCircuit)
    → ip ≢ ""
    → IsOpen ip b c
    → let (verdict, c') = before now (at ip i) c in
      ((one_if verdict ≡ 0) × IsOpen ip b c')
      ⊎ ((b ≡ false) × (one_if verdict ≡ 1) × IsOpen ip true c')
unfolding before on_entry on_open probe
asked-IsOpen now i ip b c named s =
    let iff = str_eq_iff ip "" in
    let unnamed : (ip == "") ≡ false = ground arith in
    simp (unnamed, s.known, s.timed)
      (elim (Bool-cases (ltb now s.until)) [
        | inl early ↦ simp early (inl (refl, s))
        | inr late ↦
            simp (late, s.probing)
              (elim (Bool-cases b) [
                | inl flying ↦ simp flying (inl (refl, rw flying at s))
                | inr free ↦ simp free (elim (Bool-cases (i == s.entry.representative)) [
                  | inl same ↦ simp same (
                      inr (
                        refl,
                        refl,
                        record {
                          until = s.until;
                          entry = record s.entry {
                            open_until = some s.until;
                            probe_in_flight = true;
                          };
                          known = simp (self_eq ip) refl;
                          timed = refl;
                          probing = refl;
                        },
                      ))
                  | inr other ↦ simp other (inl (refl, rw free at s))
                ])
              ])
      ])

abbrev room : Bool → ℕ
room true = 0
room false = 1

-- While the circuit of an endpoint is open, its asking nodes are admitted at most once, and not at
-- all once a probe is in flight, for as long as no outcome clears or counts: an outcome that is an
-- infrastructure failure, or a failure with another code, does not end the probe.
pub admissions-le :
    (ip : String) (es : List Event) (b : Bool) (c : EndpointCircuit)
    → ip ≢ ""
    → IsOpen ip b c
    → All IsUncounted es
    → admissions ip es c ≤ room b
unfolding admissions
admissions-le ip [] b c named s u = omega arith
admissions-le ip (asked now i ∷ later) b c named s u = elim (asked-IsOpen now i ip b c named s) [
  | inl (none_more, s') ↦ omega (arith, none_more, admissions-le ip later b _ named s' u.1)
  | inr (free, one_more, s') ↦
      rw free (omega (arith, one_more, admissions-le ip later true _ named s' u.1))
]
admissions-le ip (recorded now i o ∷ later) b c named s u =
    admissions-le ip later b _ named (uncounted-IsOpen now i ip o b c u.0 s) u.1
