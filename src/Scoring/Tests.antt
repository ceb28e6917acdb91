-- ===== src/Scoring/Tests.antt =====
-- The scores at concrete measurements, with whole numbers in place of float64.
use bagualu.Base.{
  ℕ, ◌+◌, ◌-◌, ◌*◌, ◌/◌, min, max, String, ◌≡◌, refl, ◌⊎◌, inr, Bool, true, false, none, some, List,
  [], ◌∷◌, ltb, leb, ◌==◌, nat_eq, string_eq,
}
use bagualu.Base.Sort.{stable_sort, insert}
use bagualu.Base.Floats.{Floats}
use bagualu.Jobs.{pending_job}
use bagualu.Scoring.{
  ScorePolicy, Measurement, clamp, median, recalculate, calculate_score, score_samples, windows,
  last_connectivity, stable_sort,
}
use bagualu.Scoring.Counted.{chosen_samples, calculate_score-counted}
use bagualu.Scoring.Service.{ScoreSnapshot, ScoreService, ScoreRepositories, run_job, set_policy}
use bagualu.Scoring.Settled.{IsRecalculated, told_job, run_job-IsRecalculated}
use bagualu.Scoring.Rated.{IsLastTest, IsAdvised, recalculate-IsAdvised}

abbrev whole : Floats ℕ
whole = record {
  of_ℕ = λ n. n;
  add = λ a b. a + b;
  sub = λ a b. a - b;
  mul = λ a b. a * b;
  div = λ a b. a / b;
  largest = max;
  smallest = min;
  round = λ n. n;
  whole_part = λ n. n;
  lt = ltb;
  le = leb;
  eq = λ a b. a == b;
}

abbrev policy : ScorePolicy ℕ
policy = record {
  latency_window = 2;
  speed_window = 1;
  availability_window = 100;
  minimum_availability_samples = 2;
  lookback = 50;
  speed_reference = 1000;
  latency_weight = 30;
  speed_weight = 30;
  availability_weight = 0;
  recommendation_threshold = 1;
  version = 1;
}

abbrev tested : Bool → ℕ → ℕ → Measurement ℕ
tested success latency at = record {
  kind = "connectivity";
  success = success;
  infrastructure = false;
  latency_ms = latency;
  speed_bytes_per_sec = 0;
  created_at = at;
}

abbrev timed : ℕ → ℕ → Measurement ℕ
timed speed at = record {
  kind = "throughput";
  success = true;
  infrastructure = false;
  latency_ms = 0;
  speed_bytes_per_sec = speed;
  created_at = at;
}

-- One test before the lookback, and the last one failed.
abbrev measurements : List (Measurement ℕ)
measurements =
    tested true 400 10
    ∷ tested true 60 60
    ∷ timed 900 61
    ∷ tested true 90 70
    ∷ timed 950 80
    ∷ tested false 0 90
    ∷ []

clamp_test : (clamp whole 120 0 100 ≡ 100) × (clamp whole 7 0 100 ≡ 7)
unfolding clamp
clamp_test = (refl, refl)

median_test : (median whole (3 ∷ 1 ∷ 2 ∷ []) ≡ 2) × (median whole (4 ∷ 1 ∷ 8 ∷ 2 ∷ []) ≡ 3)
unfolding median stable_sort insert
median_test = (refl, refl)

calculate_score-counted_example :
    calculate_score whole measurements policy 100
    ≡ score_samples whole policy 100 (windows whole policy (chosen_samples whole 50 measurements))
calculate_score-counted_example = calculate_score-counted whole measurements policy 100

recalculate-IsAdvised_example :
    IsLastTest measurements (last_connectivity measurements)
    × IsAdvised whole policy
        (recalculate whole measurements policy 100)
        (last_connectivity measurements)
        (recalculate whole measurements policy 100).status
recalculate-IsAdvised_example = recalculate-IsAdvised whole measurements policy 100

abbrev service : ScoreService ℕ
service = record { is_configured = true; policy = policy }

abbrev repositories : ScoreRepositories ℕ
repositories = record {
  find_error = none;
  find_since = λ since. inr measurements;
  save_error = none;
}

set_policy_test :
    (set_policy whole (record policy { version = 0 }) service).0 ≡ some "invalid score policy"
unfolding set_policy
set_policy_test = refl

run_job-IsRecalculated_example :
    (answer : String ⊎ ScoreSnapshot ℕ) × ((run_job whole false false service repositories 100 "s1"
        "n1" pending_job []).0
      ≡ told_job whole false answer)
    × IsRecalculated whole service repositories 100 "n1" []
        (answer, (run_job whole false false service repositories 100 "s1" "n1" pending_job []).1)
run_job-IsRecalculated_example =
    run_job-IsRecalculated whole false service repositories 100 "s1" "n1" pending_job []
