-- ===== src/Load/Tests.antt =====
-- A throughput test under a bandwidth guard, with whole numbers in place of float64.
use bagualu.Base.{
  ℕ, ◌+◌, ◌-◌, ◌*◌, ◌/◌, ◌≤◌, min, max, ◌≡◌, refl, true, false, none, some, List, [], ◌∷◌, ltb, leb,
  ◌==◌, nat_eq, string_eq,
}
use bagualu.Base.Floats.{Floats}
use bagualu.Orchestrator.{TrafficSample, TestJob, Answers, BaselineResult, wrap_job}
use bagualu.Load.{
  LoadConfig, BandwidthLoadGuard, Readings, new_bandwidth_load_guard, check, no_figures, window_of,
}
use bagualu.Load.During.{icmp_check, check_during, fixed_check}
use bagualu.Load.Since.{Call, check_all, last_seen, judged_since, check_during-judged_since}
use bagualu.Orchestrator.Accepted.{IsAccepted}
use bagualu.Load.Admitted.{IsIdle, wrap_job-IsIdle}

abbrev whole : Floats ℕ
whole = record {
  of_ℕ = λ n. n;
  add = λ a b. a + b;
  sub = λ a b. a - b;
  mul = λ a b. a * b;
  div = λ a b. a / b;
  largest = max;
  smallest = min;
  round = λ n. n;
  whole_part = λ n. n;
  lt = ltb;
  le = leb;
  eq = λ a b. a == b;
}

abbrev counters : ℕ → ℕ → TrafficSample
counters down up = record { download_bytes = down; upload_bytes = up }

-- A threshold of 2, since whole numbers have no 0.1.
abbrev config : LoadConfig ℕ
config = record { download_capacity = 10; upload_capacity = 10; threshold = 2 }

abbrev quiet : Readings
quiet = record {
  first = some (counters 100 100);
  stopped = false;
  second = some (counters 150 120);
  now = 7000000000;
}

abbrev loud : Readings
loud = record {
  first = some (counters 100 100);
  stopped = false;
  second = some (counters 900 120);
  now = 6000000000;
}

abbrev stopped : Readings
stopped = record { first = some (counters 5 5); stopped = true; second = none; now = 9000000000 }

abbrev fresh : BandwidthLoadGuard ℕ
fresh = new_bandwidth_load_guard whole

check_test :
    ((check whole fresh config quiet).0.status ≡ "clean")
    × (((check whole fresh config loud).0.status ≡ "network_busy")
        × ((check whole fresh config stopped).0.status ≡ "network_load_unknown"))
unfolding check new_bandwidth_load_guard
check_test = (refl, (refl, refl))

fixed : (fixed_check whole "").status ≡ "network_load_unknown"
unfolding fixed_check
fixed = refl

replied :
    (icmp_check "" true false 2
      ≡ record { available = true; error_code = ""; target = "www.baidu.com" })
    × (icmp_check "1.1.1.1" true true 0 ≡ record {
      available = false;
      error_code = "network_baseline_unavailable";
      target = "1.1.1.1";
    })
unfolding icmp_check
replied = (refl, refl)

abbrev calls : List (Call ℕ)
calls =
    record { config = config; readings = loud }
    ∷ record { config = config; readings = quiet }
    ∷ record { config = config; readings = stopped }
    ∷ []

check_during-judged_since_example :
    check_during whole
      (check_all whole calls fresh)
      (some (counters 350 130))
      9000000000
      (counters 180 0)
    ≡ judged_since whole
        (last_seen whole (window_of whole 0) calls none)
        (some (counters 350 130))
        9000000000
        (counters 180 0)
check_during-judged_since_example =
    check_during-judged_since whole calls (some (counters 350 130)) 9000000000 (counters 180 0)

abbrev job : TestJob
job = record { id = "j1"; node_id = "n1"; kind = "throughput"; retry = 0 }

abbrev up : BaselineResult
up = record { available = true; error_code = ""; target = "1.1.1.1" }

abbrev script : ℕ → Answers ℕ
script k = record {
  baseline = some up;
  stopped = false;
  recovery = up;
  load = some (check whole fresh config quiet).0;
  source_failed = false;
  outcome = record {
    job_id = "";
    node_id = "";
    kind = "";
    status = "success";
    error_code = "";
    error_detail = "";
    failure_stage = "";
    success = true;
    infrastructure = false;
    baseline_target = "";
    load_status = "";
    figures = no_figures whole;
    node_name = "JP-1";
    traffic_before = 10;
    traffic_after = 4096;
  };
  error = none;
  after = up;
  contention = none;
  backoff = none;
}

wrap_job-IsIdle_example :
    (k : ℕ) × ((k ≤ 0)
      × (IsAccepted (no_figures whole) job (script k) × IsIdle whole fresh config quiet))
unfolding wrap_job check new_bandwidth_load_guard
wrap_job-IsIdle_example =
    wrap_job-IsIdle whole (no_figures whole) job script
      (record { observed = false; ready = false; load = none }) (λ k. fresh) (λ k. config)
      (λ k. quiet) refl (λ k. refl) refl
