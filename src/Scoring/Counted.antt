-- ===== src/Scoring/Counted.antt =====
-- Which measurements CalculateScore of internal/domain/scoring.go counts.
use bagualu.Base.{
  ℕ, ◌+◌, ◌-◌, String, ◌≡◌, refl, ◌∙◌, inl, inr, Bool, true, false, not, ◌&&◌, List, [], ◌∷◌, ◌++◌,
  arith, leb, ◌==◌, nat_eq, string_eq, str_eq_iff, if◌then◌else◌, Bool-cases, count, append_assoc,
  append-nil,
}
use native.Mathlib.Nat.{zero-add, add-zero, add_assoc}
use bagualu.Base.Floats.{Floats}
use bagualu.Scoring.{
  ScorePolicy, Measurement, Samples, is_passed_over, exceeds_zero, collect, collect_all, no_samples,
  windows, score_samples, calculate_score,
}

module _ {F : Type 0} (fl : Floats F) (cutoff : ℕ) where
  -- A measurement of the lookback that is not of the infrastructure.
  pub is_counted : Measurement F → Bool
  is_counted m = leb cutoff m.created_at && not m.infrastructure

  counted_lem : (m : Measurement F) → is_counted m ≡ not (is_passed_over fl cutoff m)
  unfolding is_counted
  counted_lem m = ground arith

  -- A connectivity test among them.
  abbrev pub is_valid : Measurement F → Bool
  is_valid m = is_counted m && (m.kind == "connectivity")

  abbrev pub is_success : Measurement F → Bool
  is_success m = is_valid m && m.success

  abbrev pub has_latency : Measurement F → Bool
  has_latency m = is_success m && exceeds_zero fl m.latency_ms

  abbrev pub has_speed : Measurement F → Bool
  has_speed m =
      (is_counted m && (m.kind == "throughput"))
      && (m.success && exceeds_zero fl m.speed_bytes_per_sec)

  abbrev pub chosen : (Measurement F → Bool) → (Measurement F → F) → List (Measurement F) → List F
  chosen test value [] = []
  chosen test value (m ∷ l) = (if test m then value m ∷ [] else []) ++ chosen test value l

  -- What the loop is to collect.
  abbrev pub chosen_samples : List (Measurement F) → Samples F
  chosen_samples l = record {
    latencies = chosen has_latency (λ m. m.latency_ms) l;
    speeds = chosen has_speed (λ m. m.speed_bytes_per_sec) l;
    successes = count is_success l;
    valid_availability = count is_valid l;
  }

  abbrev joined : Samples F → Samples F → Samples F
  joined s t = record {
    latencies = s.latencies ++ t.latencies;
    speeds = s.speeds ++ t.speeds;
    successes = s.successes + t.successes;
    valid_availability = s.valid_availability + t.valid_availability;
  }

  not_both : (k : String) → (k == "connectivity") ≡ true → (k == "throughput") ≡ false
  not_both k h = rw ((str_eq_iff k "connectivity").0 h) refl

  collect-chosen :
      (m : Measurement F) (l : List (Measurement F)) (s : Samples F)
      → joined (collect fl cutoff m s) (chosen_samples l) ≡ joined s (chosen_samples (m ∷ l))
  unfolding collect
  collect-chosen m l s = elim (Bool-cases (is_passed_over fl cutoff m)) [
    | inl e ↦ simp (counted_lem m, e, zero-add) refl
    | inr e ↦ elim (Bool-cases (m.kind == "connectivity")) [
      | inl k ↦ simp (counted_lem m, e, k, not_both m.kind k, append_assoc, add_assoc) refl
      | inr k ↦ elim (Bool-cases (m.kind == "throughput")) [
        | inl t ↦ simp (counted_lem m, e, k, t, append_assoc, zero-add) refl
        | inr t ↦ simp (counted_lem m, e, k, t, zero-add) refl
      ]
    ]
  ]

  collect_all-chosen :
      (l : List (Measurement F)) (s : Samples F)
      → collect_all fl cutoff l s ≡ joined s (chosen_samples l)
  unfolding collect_all
  collect_all-chosen [] s = simp (append-nil, add-zero) refl
  collect_all-chosen (m ∷ l) s = collect_all-chosen l (collect fl cutoff m s) ∙ collect-chosen m l s

  -- The loop of CalculateScore collects, in the order of the measurements, what the tests choose.
  pub collect_all-counted :
      (l : List (Measurement F)) → collect_all fl cutoff l (no_samples fl) ≡ chosen_samples l
  collect_all-counted l = simp (collect_all-chosen l (no_samples fl), zero-add) refl

-- CalculateScore scores the windows of the connectivity tests of the lookback that are not of the
-- infrastructure (all and the successful ones counted, and the positive latencies of the latter)
-- and of the positive speeds of its successful throughput tests, in the order of the measurements.
pub calculate_score-counted :
    {F : Type 0} (fl : Floats F) (l : List (Measurement F)) (p : ScorePolicy F) (now : ℕ)
    → calculate_score fl l p now
      ≡ score_samples fl p now (windows fl p (chosen_samples fl (now - p.lookback) l))
unfolding calculate_score
calculate_score-counted fl l p now = rw (collect_all-counted fl (now - p.lookback) l) refl
