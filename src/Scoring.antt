-- ===== src/Scoring.antt =====
-- CalculateScore of internal/domain/scoring.go and Recalculate of internal/application/scoring.go.
-- float64 is a parameter with the operations that they use.
mod Tests
pub mod Counted
pub mod Rated
pub mod Service
pub mod Settled
use bagualu.Base.{
  ℕ, zero, suc, ◌+◌, ◌-◌, ◌*◌, ◌/◌, ◌%◌, String, Bool, true, false, not, ◌&&◌, ◌||◌, Option, none,
  some, List, [], ◌∷◌, ◌++◌, ltb, leb, ◌==◌, nat_eq, string_eq, if◌then◌else◌, length, last_of,
}
use bagualu.Base.Floats.{Floats, zero_float}
use bagualu.Base.Sort.{stable_sort}

pub record ScorePolicy (F : Type 0) : Type 0 where
  pub latency_window : ℕ
  pub speed_window : ℕ
  pub availability_window : ℕ
  pub minimum_availability_samples : ℕ
  pub lookback : ℕ
  pub speed_reference : F
  pub latency_weight : F
  pub speed_weight : F
  pub availability_weight : F
  pub recommendation_threshold : F
  pub version : ℕ

pub record Measurement (F : Type 0) : Type 0 where
  pub kind : String
  pub success : Bool
  pub infrastructure : Bool
  pub latency_ms : F
  pub speed_bytes_per_sec : F
  pub created_at : ℕ

pub data Recommendation : Type 0 where
  unrated not_recommended recommended temporarily_unavailable : Recommendation

pub record Score (F : Type 0) : Type 0 where
  pub latency : F
  pub speed : F
  pub availability : F
  pub overall : F
  pub status : Recommendation
  pub latency_samples : ℕ
  pub speed_samples : ℕ
  pub availability_samples : ℕ
  pub strategy_version : ℕ
  pub calculated_at : ℕ

-- What the loop over the measurements collects, in their order.
pub record Samples (F : Type 0) : Type 0 where
  pub latencies : List F
  pub speeds : List F
  pub successes : ℕ
  pub valid_availability : ℕ

told_by : {F : Type 0} → Option Bool → Measurement F → Option Bool
told_by (some success) m = some success
told_by none m = if not (m.kind == "connectivity") || m.infrastructure then none else some m.success

-- The loop of Recalculate from the last measurement: the first connectivity test that is not of
-- the infrastructure decides; `none` where there is none.
pub last_connectivity : {F : Type 0} → List (Measurement F) → Option Bool
unfolding told_by
last_connectivity [] = none
last_connectivity (m ∷ l) = told_by (last_connectivity l) m

downgraded : Option Bool → Recommendation → Recommendation
downgraded (some false) recommended = temporarily_unavailable
downgraded o status = status

module _ {F : Type 0} (fl : Floats F) where
  abbrev exceeds_zero : F → Bool
  exceeds_zero x = fl.lt (zero_float fl) x

  -- DefaultScorePolicy, its duration in nanoseconds.
  default_score_policy : ScorePolicy F
  default_score_policy = record {
    latency_window = 20;
    speed_window = 3;
    availability_window = 100;
    minimum_availability_samples = 20;
    lookback = 7 * 24 * 3600 * 1000000000;
    speed_reference = fl.of_ℕ 1000000;
    latency_weight = fl.div (fl.of_ℕ 30) (fl.of_ℕ 100);
    speed_weight = fl.div (fl.of_ℕ 30) (fl.of_ℕ 100);
    availability_weight = fl.div (fl.of_ℕ 40) (fl.of_ℕ 100);
    recommendation_threshold = fl.of_ℕ 60;
    version = 1;
  }

  -- The policy of NewScoreService: the default one for one without a version.
  pub new_policy : ScorePolicy F → ScorePolicy F
  unfolding default_score_policy
  new_policy p = if p.version == 0 then default_score_policy else p

  -- math.Max(low, math.Min(high, value))
  pub clamp : F → F → F → F
  clamp value low high = fl.largest low (fl.smallest high value)

  at_index : List F → ℕ → F
  at_index [] i = zero_float fl
  at_index (x ∷ l) zero = x
  at_index (x ∷ l) (suc i) = at_index l i

  -- Median; an index out of range, which does not occur, would panic.
  pub median : List F → F
  unfolding at_index
  median [] = zero_float fl
  median (x ∷ l) =
      let sorted = stable_sort fl.lt (x ∷ l) in
      let middle = length (x ∷ l) / 2 in
      if length (x ∷ l) % 2 == 1
      then at_index sorted middle
      else fl.div (fl.add (at_index sorted (middle - 1)) (at_index sorted middle)) (fl.of_ℕ 2)

  -- measurement.CreatedAt.Before(cutoff) || measurement.Infrastructure; the cutoff is lookback
  -- before now, and times are on one line.
  abbrev pub is_passed_over : ℕ → Measurement F → Bool
  is_passed_over cutoff m = ltb m.created_at cutoff || m.infrastructure

  -- One round of the loop.
  unfoldable pub collect : ℕ → Measurement F → Samples F → Samples F
  collect cutoff m s =
      if is_passed_over cutoff m
      then s
      else if m.kind == "connectivity"
      then record s {
        valid_availability = s.valid_availability + 1;
        successes = s.successes + (if m.success then 1 else 0);
        latencies =
            s.latencies
            ++ (if m.success && exceeds_zero m.latency_ms then m.latency_ms ∷ [] else []);
      }
      else if m.kind == "throughput"
      then record s {
        speeds =
            s.speeds
            ++ (if m.success && exceeds_zero m.speed_bytes_per_sec
                then m.speed_bytes_per_sec ∷ []
                else []);
      }
      else s

  unfoldable pub collect_all : ℕ → List (Measurement F) → Samples F → Samples F
  unfolding collect
  collect_all cutoff [] s = s
  collect_all cutoff (m ∷ l) s = collect_all cutoff l (collect cutoff m s)

  abbrev pub no_samples : Samples F
  no_samples = record { latencies = []; speeds = []; successes = 0; valid_availability = 0 }

  -- values[len(values)-window:] where there are more than window
  abbrev pub windowed : ℕ → List F → List F
  windowed window values = if ltb window (length values) then last_of window values else values

  is_any : List F → Bool
  is_any [] = false
  is_any (x ∷ l) = true

  latency_score : List F → F
  unfolding median clamp
  latency_score latencies =
      if is_any latencies
      then clamp
          (fl.div (fl.mul (fl.of_ℕ 100) (fl.sub (fl.of_ℕ 500) (median latencies))) (fl.of_ℕ 450))
          (zero_float fl) (fl.of_ℕ 100)
      else zero_float fl

  speed_score : ScorePolicy F → List F → F
  unfolding median clamp
  speed_score p speeds =
      if is_any speeds && exceeds_zero p.speed_reference
      then clamp (fl.div (fl.mul (fl.of_ℕ 100) (median speeds)) p.speed_reference) (zero_float fl)
          (fl.of_ℕ 100)
      else zero_float fl

  availability_score : ScorePolicy F → Samples F → F
  availability_score p s =
      if leb p.minimum_availability_samples s.valid_availability
      then fl.div (fl.mul (fl.of_ℕ 100) (fl.of_ℕ s.successes)) (fl.of_ℕ s.valid_availability)
      else zero_float fl

  -- The weighted harmonic mean, before it is clamped and rounded.
  harmonic : ScorePolicy F → F → F → F → F
  harmonic p latency speed availability =
      if fl.eq latency (zero_float fl)
        || (fl.eq speed (zero_float fl) || fl.eq availability (zero_float fl))
      then zero_float fl
      else fl.div (fl.of_ℕ 1) (
          fl.add (fl.add (fl.div p.latency_weight latency) (fl.div p.speed_weight speed))
            (fl.div p.availability_weight availability))

  overall_score : ScorePolicy F → F → F → F → F
  unfolding harmonic clamp
  overall_score p latency speed availability =
      fl.round (clamp (harmonic p latency speed availability) (zero_float fl) (fl.of_ℕ 100))

  -- Whether there are samples of all three kinds.
  pub is_ratable : ScorePolicy F → Samples F → Bool
  unfolding is_any
  is_ratable p s =
      is_any s.latencies
      && (is_any s.speeds && leb p.minimum_availability_samples s.valid_availability)

  -- result.Overall >= policy.RecommendationThreshold
  status_of : ScorePolicy F → F → Recommendation
  status_of p overall =
      if fl.le p.recommendation_threshold overall then recommended else not_recommended

  -- The score of the windows of the samples.
  pub score_samples : ScorePolicy F → ℕ → Samples F → Score F
  unfolding latency_score speed_score availability_score is_ratable overall_score status_of
  score_samples p now s =
      let latency = latency_score s.latencies in
      let speed = speed_score p s.speeds in
      let availability = availability_score p s in
      let overall = overall_score p latency speed availability in
      record {
        latency = latency;
        speed = speed;
        availability = availability;
        overall = if is_ratable p s then overall else zero_float fl;
        status = if is_ratable p s then status_of p overall else unrated;
        latency_samples = length s.latencies;
        speed_samples = length s.speeds;
        availability_samples = s.valid_availability;
        strategy_version = p.version;
        calculated_at = now;
      }

  pub windows : ScorePolicy F → Samples F → Samples F
  windows p s = record s {
    latencies = windowed p.latency_window s.latencies;
    speeds = windowed p.speed_window s.speeds;
  }

  pub calculate_score : List (Measurement F) → ScorePolicy F → ℕ → Score F
  unfolding collect_all windows score_samples
  calculate_score measurements p now =
      score_samples p now (windows p (collect_all (now - p.lookback) measurements no_samples))

  -- The score of the snapshot that Recalculate saves.
  pub recalculate : List (Measurement F) → ScorePolicy F → ℕ → Score F
  unfolding calculate_score last_connectivity downgraded
  recalculate measurements p now =
      let score = calculate_score measurements p now in
      record score { status = downgraded (last_connectivity measurements) score.status }
