-- ===== src/Load.antt =====
-- BandwidthLoadGuard of internal/application/network.go, which the Orchestrator asks before a
-- throughput test, and the samples that it keeps. What the reader of the interface's counters answers is an argument.
mod Tests
pub mod During
pub mod Since
pub mod Admitted
use bagualu.Base.{
  ℕ, ◌-◌, ◌/◌, ◌%◌, String, Bool, true, not, ◌||◌, Option, none, some, leb, ◌==◌, nat_eq, string_eq,
  if◌then◌else◌,
}
use bagualu.Base.Floats.{Floats, zero_float}
use bagualu.Orchestrator.{TrafficSample, LoadFigures, LoadResult}

abbrev pub load_clean : String
load_clean = "clean"

abbrev pub load_busy : String
load_busy = "network_busy"

abbrev pub load_unknown : String
load_unknown = "network_load_unknown"

abbrev pub load_contended : String
load_contended = "network_contended"

-- What Check takes of g.Config, or of the fields of the guard where it is nil.
pub record LoadConfig (F : Type 0) : Type 0 where
  pub download_capacity : F
  pub upload_capacity : F
  pub threshold : F

-- bandwidthLoadState; a time that is zero is `none`.
pub record BandwidthLoadState (F : Type 0) : Type 0 where
  pub start_sample : TrafficSample
  pub started : Option ℕ
  pub capacity : F
  pub down_allowance : F
  pub up_allowance : F
  pub config : LoadConfig F

-- A SampleWindow below 0 acts as 0.
pub record BandwidthLoadGuard (F : Type 0) : Type 0 where
  pub has_reader : Bool
  pub sample_window : ℕ
  pub state : Option (BandwidthLoadState F)

-- What Check meets: the answers of the reader before and after the window, whether ctx is done
-- before the window ends, and the time of the end.
pub record Readings : Type 0 where
  pub first : Option TrafficSample
  pub stopped : Bool
  pub second : Option TrafficSample
  pub now : ℕ

-- The samples of a check whose readings all succeed.
abbrev pub samples_of : Readings → Option (TrafficSample × TrafficSample)
samples_of r = elim r.first [
  | none ↦ none
  | some first ↦
      if r.stopped then none else elim r.second [ none ↦ none | some second ↦ some (first, second) ]
]

module _ {F : Type 0} (fl : Floats F) where
  abbrev pub is_nothing : F → Bool
  is_nothing x = fl.le x (zero_float fl)

  abbrev pub is_below_zero : F → Bool
  is_below_zero x = fl.lt x (zero_float fl)

  -- Duration.Seconds
  abbrev pub seconds : ℕ → F
  seconds d =
      fl.add (fl.of_ℕ (d / 1000000000)) (fl.div (fl.of_ℕ (d % 1000000000)) (fl.of_ℕ 1000000000))

  -- float64(a - b) of counters
  abbrev pub difference : ℕ → ℕ → F
  difference a b = if leb b a then fl.of_ℕ (a - b) else fl.sub (zero_float fl) (fl.of_ℕ (b - a))

  abbrev pub no_figures : LoadFigures F
  no_figures = record {
    upload_bps = zero_float fl;
    download_bps = zero_float fl;
    before = record { download_bytes = 0; upload_bytes = 0 };
    after = record { download_bytes = 0; upload_bytes = 0 };
    download_capacity_bps = zero_float fl;
    upload_capacity_bps = zero_float fl;
    threshold_bps = zero_float fl;
    sample_duration_ms = 0;
  }

  abbrev pub unknown_load : LoadResult F
  unknown_load = record { status = load_unknown; figures = no_figures }

  pub new_bandwidth_load_guard : BandwidthLoadGuard F
  new_bandwidth_load_guard = record {
    has_reader = true;
    sample_window = 0;
    state = some (record {
      start_sample = record { download_bytes = 0; upload_bytes = 0 };
      started = none;
      capacity = zero_float fl;
      down_allowance = zero_float fl;
      up_allowance = zero_float fl;
      config = record {
        download_capacity = zero_float fl;
        upload_capacity = zero_float fl;
        threshold = zero_float fl;
      };
    });
  }

  abbrev pub with_threshold : LoadConfig F → LoadConfig F
  with_threshold c =
      if is_nothing c.threshold then record c { threshold = fl.div (fl.of_ℕ 1) (fl.of_ℕ 10) } else c

  abbrev pub window_of : ℕ → ℕ
  window_of sample_window = if sample_window == 0 then 5000000000 else sample_window

  abbrev pub download_rate : ℕ → TrafficSample → TrafficSample → F
  download_rate window a b = fl.div (difference b.download_bytes a.download_bytes) (seconds window)

  abbrev pub upload_rate : ℕ → TrafficSample → TrafficSample → F
  upload_rate window a b = fl.div (difference b.upload_bytes a.upload_bytes) (seconds window)

  abbrev pub is_busy : LoadConfig F → F → F → Bool
  is_busy c download upload =
      fl.lt c.threshold (fl.div download c.download_capacity)
      || fl.lt c.threshold (fl.div upload c.upload_capacity)

  -- What Check keeps in g.state.
  abbrev remembered : LoadConfig F → TrafficSample → ℕ → BandwidthLoadState F
  remembered c second now = record {
    start_sample = second;
    started = some now;
    capacity = fl.mul c.download_capacity c.threshold;
    down_allowance = fl.mul c.download_capacity c.threshold;
    up_allowance = fl.mul c.upload_capacity c.threshold;
    config = c;
  }

  keep_sample :
      LoadConfig F
      → TrafficSample
      → ℕ
      → Option (BandwidthLoadState F)
      → Option (BandwidthLoadState F)
  keep_sample c second now none = none
  keep_sample c second now (some s) = some (remembered c second now)

  -- Check from the second reading on.
  compare_rates :
      BandwidthLoadGuard F
      → LoadConfig F
      → ℕ
      → ℕ
      → TrafficSample
      → TrafficSample
      → LoadResult F × BandwidthLoadGuard F
  unfolding keep_sample
  compare_rates g c window now first second =
      let download = download_rate window first second in
      let upload = upload_rate window first second in
      if is_below_zero download || is_below_zero upload then (unknown_load, g) else (
        record {
          status = if is_busy c download upload then load_busy else load_clean;
          figures = record {
            upload_bps = upload;
            download_bps = download;
            before = first;
            after = second;
            download_capacity_bps = c.download_capacity;
            upload_capacity_bps = c.upload_capacity;
            threshold_bps = c.threshold;
            sample_duration_ms = window / 1000000;
          };
        },
        record g { state = keep_sample c second now g.state },
      )

  sampled_check :
      BandwidthLoadGuard F
      → LoadConfig F
      → ℕ
      → Option (TrafficSample × TrafficSample)
      → LoadResult F × BandwidthLoadGuard F
  unfolding compare_rates
  sampled_check g c now none = (unknown_load, g)
  sampled_check g c now (some (first, second)) =
      compare_rates g (with_threshold c) (window_of g.sample_window) now first second

  pub check : BandwidthLoadGuard F → LoadConfig F → Readings → LoadResult F × BandwidthLoadGuard F
  unfolding sampled_check
  check g c r =
      if not g.has_reader || (is_nothing c.download_capacity || is_nothing c.upload_capacity)
      then (unknown_load, g)
      else sampled_check g c r.now (samples_of r)
