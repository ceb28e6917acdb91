-- ===== src/Load/Since.antt =====
-- Which check the contention check of internal/application/network.go compares with.
use bagualu.Base.{
  ℕ, ◌-◌, ◌≡◌, refl, ap, ◌∙◌, inl, inr, true, ◌||◌, Option, none, some, List, [], ◌∷◌,
  if◌then◌else◌, Bool-cases,
}
use bagualu.Base.Floats.{Floats, zero_float}
use bagualu.Orchestrator.{TrafficSample, LoadResult}
use bagualu.Load.{
  LoadConfig, BandwidthLoadState, BandwidthLoadGuard, Readings, samples_of, is_nothing,
  is_below_zero, seconds, unknown_load, new_bandwidth_load_guard, with_threshold, window_of,
  download_rate, upload_rate, remembered, keep_sample, compare_rates, sampled_check, check,
}
use bagualu.Load.During.{up_limit, classify, since_start, on_state, check_during}

-- A call of Check: the configuration that it finds, and what it meets.
pub record Call (F : Type 0) : Type 0 where
  pub config : LoadConfig F
  pub readings : Readings

-- What a call that gave an answer has seen.
pub record Seen (F : Type 0) : Type 0 where
  pub end_sample : TrafficSample
  pub at : ℕ
  pub config : LoadConfig F

module _ {F : Type 0} (fl : Floats F) where
  abbrev seen_samples : ℕ → Call F → Option (TrafficSample × TrafficSample) → Option (Seen F)
  seen_samples window k none = none
  seen_samples window k (some (a, b)) =
      if is_below_zero fl (download_rate fl window a b)
        || is_below_zero fl (upload_rate fl window a b)
      then none
      else some
          (record { end_sample = b; at = k.readings.now; config = with_threshold fl k.config })

  -- What a call sees: nothing without capacities, without both readings, or where a counter went
  -- back.
  abbrev pub seen : ℕ → Call F → Option (Seen F)
  seen window k =
      if is_nothing fl k.config.download_capacity || is_nothing fl k.config.upload_capacity
      then none
      else seen_samples window k (samples_of k.readings)

  abbrev or_before : Option (Seen F) → Option (Seen F) → Option (Seen F)
  or_before none before = before
  or_before (some k) before = some k

  -- The last call that sees something, or what was seen before.
  abbrev pub last_seen : ℕ → List (Call F) → Option (Seen F) → Option (Seen F)
  last_seen window [] before = before
  last_seen window (k ∷ l) before = last_seen window l (or_before (seen window k) before)

  -- What CheckDuring is to answer for what was seen.
  abbrev pub judged_since :
      Option (Seen F) → Option TrafficSample → ℕ → TrafficSample → LoadResult F
  judged_since none end now own = unknown_load fl
  judged_since (some k) none now own = unknown_load fl
  judged_since (some k) (some end) now own =
      let down = fl.mul k.config.download_capacity k.config.threshold in
      let up = fl.mul k.config.upload_capacity k.config.threshold in
      let elapsed = seconds fl (now - k.at) in
      if is_nothing fl down || is_nothing fl elapsed
      then unknown_load fl
      else classify fl k.config k.end_sample end own elapsed down (up_limit fl up)

  abbrev pub check_all : List (Call F) → BandwidthLoadGuard F → BandwidthLoadGuard F
  check_all [] g = g
  check_all (k ∷ l) g = check_all l (check fl g k.config k.readings).1

  abbrev state_of : Option (Seen F) → BandwidthLoadState F
  state_of none = record {
    start_sample = record { download_bytes = 0; upload_bytes = 0 };
    started = none;
    capacity = zero_float fl;
    down_allowance = zero_float fl;
    up_allowance = zero_float fl;
    config = record {
      download_capacity = zero_float fl;
      upload_capacity = zero_float fl;
      threshold = zero_float fl;
    };
  }
  state_of (some k) = remembered fl k.config k.end_sample k.at

  abbrev guard_of : Option (Seen F) → BandwidthLoadGuard F
  guard_of o = record { has_reader = true; sample_window = 0; state = some (state_of o) }

  sampled_check-seen :
      (k : Call F) (o : Option (Seen F)) (samples : Option (TrafficSample × TrafficSample))
      → (sampled_check fl (guard_of o) k.config k.readings.now samples).1
        ≡ guard_of (or_before (seen_samples (window_of fl 0) k samples) o)
  unfolding sampled_check compare_rates keep_sample
  sampled_check-seen k o none = refl
  sampled_check-seen k o (some (a, b)) =
      elim (Bool-cases (
        is_below_zero fl (download_rate fl (window_of fl 0) a b)
        || is_below_zero fl (upload_rate fl (window_of fl 0) a b))) [
          | inl e ↦ simp e refl
          | inr e ↦ simp e refl
        ]

  check-seen :
      (k : Call F) (o : Option (Seen F))
      → (check fl (guard_of o) k.config k.readings).1
        ≡ guard_of (or_before (seen (window_of fl 0) k) o)
  unfolding check
  check-seen k o =
      elim (Bool-cases
        (is_nothing fl k.config.download_capacity || is_nothing fl k.config.upload_capacity)) [
          | inl e ↦ simp e refl
          | inr e ↦ simp e (sampled_check-seen k o (samples_of k.readings))
        ]

  check_all-seen :
      (l : List (Call F)) (o : Option (Seen F))
      → check_all l (guard_of o) ≡ guard_of (last_seen (window_of fl 0) l o)
  check_all-seen [] o = refl
  check_all-seen (k ∷ l) o =
      ap (check_all l) (check-seen k o) ∙ check_all-seen l (or_before (seen (window_of fl 0) k) o)

  check_during-judged :
      (o : Option (Seen F)) (end : Option TrafficSample) (now : ℕ) (own : TrafficSample)
      → check_during fl (guard_of o) end now own ≡ judged_since o end now own
  unfolding check_during on_state since_start
  check_during-judged none none now own = refl
  check_during-judged none (some e) now own = refl
  check_during-judged (some k) none now own = refl
  check_during-judged (some k) (some e) now own =
      elim (Bool-cases (is_nothing fl (fl.mul k.config.download_capacity k.config.threshold))) [
        | inl e ↦ simp e refl
        | inr e ↦ simp e refl
      ]

-- After any calls of Check on a guard that NewBandwidthLoadGuard made, CheckDuring answers by the
-- last of them that had capacities and two readings of counters that did not go back: by its
-- second reading, its time and the allowances of its configuration. The calls without an answer
-- change nothing, and without any the load is unknown.
pub check_during-judged_since :
    {F : Type 0} (fl : Floats F) (l : List (Call F)) (end : Option TrafficSample) (now : ℕ)
    (own : TrafficSample)
    → check_during fl (check_all fl l (new_bandwidth_load_guard fl)) end now own
      ≡ judged_since fl (last_seen fl (window_of fl 0) l none) end now own
unfolding new_bandwidth_load_guard
check_during-judged_since fl l end now own =
    ap (λ g. check_during fl g end now own) (check_all-seen fl l none)
    ∙ check_during-judged fl (last_seen fl (window_of fl 0) l none) end now own
