-- ===== src/Load/During.antt =====
-- CheckDuring of internal/application/network.go, which looks at the traffic after a throughput
-- test, the guard of a fixed state, and the baseline by ping.
use bagualu.Base.{
  ℕ, ◌+◌, ◌-◌, ◌^◌, String, Bool, false, not, ◌&&◌, ◌||◌, Option, none, some, leb, ◌==◌, nat_eq,
  string_eq, if◌then◌else◌,
}
use bagualu.Base.Floats.{Floats, zero_float}
use bagualu.Orchestrator.{TrafficSample, LoadResult, BaselineResult}
use bagualu.Load.{
  LoadConfig, BandwidthLoadState, BandwidthLoadGuard, load_clean, load_contended, is_nothing,
  is_below_zero, seconds, difference, unknown_load, no_figures,
}

-- ICMPBaseline.Check: whether the target resolves, and whether ping fails and how many replies its
-- output has. The numbers of the probes are not modelled.
unfoldable pub icmp_check : String → Bool → Bool → ℕ → BaselineResult
icmp_check target resolves fails received =
    let name = if target == "" then "www.baidu.com" else target in
    let lost : BaselineResult = record {
      available = false;
      error_code = "network_baseline_unavailable";
      target = name;
    } in
    if not resolves
    then lost
    else if fails && (received == 0)
    then lost
    else record { available = leb 1 received; error_code = ""; target = name }

module _ {F : Type 0} (fl : Floats F) where
  abbrev pub or_zero_rate : F → F
  or_zero_rate x = if is_below_zero fl x then zero_float fl else x

  -- The traffic since `start` that is not the task's own.
  abbrev pub background_rate : ℕ → ℕ → ℕ → F → F
  background_rate end start own elapsed =
      or_zero_rate (fl.div (difference fl end (start + own)) elapsed)

  -- 1<<63 - 1 where there is no allowance
  abbrev pub up_limit : F → F
  up_limit x = if is_nothing fl x then fl.of_ℕ (2 ^ 63 - 1) else x

  -- CheckDuring from the end of the lock on, with the allowances that it uses.
  pub classify :
      LoadConfig F → TrafficSample → TrafficSample → TrafficSample → F → F → F → LoadResult F
  classify c start end own elapsed down up =
      let download =
        background_rate end.download_bytes start.download_bytes own.download_bytes elapsed in
      let upload = background_rate end.upload_bytes start.upload_bytes own.upload_bytes elapsed in
      record {
        status = if fl.lt down download || fl.lt up upload then load_contended else load_clean;
        figures = record {
          upload_bps = upload;
          download_bps = download;
          before = start;
          after = end;
          download_capacity_bps = c.download_capacity;
          upload_capacity_bps = c.upload_capacity;
          threshold_bps = c.threshold;
          sample_duration_ms = fl.whole_part (fl.mul elapsed (fl.of_ℕ 1000));
        };
      }

  unfoldable pub since_start :
      BandwidthLoadState F → Option ℕ → TrafficSample → ℕ → TrafficSample → LoadResult F
  unfolding classify
  since_start s none end now own = unknown_load fl
  since_start s (some started) end now own =
      let down = if is_nothing fl s.down_allowance then s.capacity else s.down_allowance in
      let elapsed = seconds fl (now - started) in
      if is_nothing fl down || is_nothing fl elapsed
      then unknown_load fl
      else classify s.config s.start_sample end own elapsed down (up_limit s.up_allowance)

  unfoldable pub on_state :
      Option (BandwidthLoadState F) → Option TrafficSample → ℕ → TrafficSample → LoadResult F
  unfolding since_start
  on_state none end now own = unknown_load fl
  on_state (some s) none now own = unknown_load fl
  on_state (some s) (some end) now own = since_start s s.started end now own

  -- CheckDuring: the reader's answer, the time, and the bytes of the outcome.
  unfoldable pub check_during :
      BandwidthLoadGuard F → Option TrafficSample → ℕ → TrafficSample → LoadResult F
  unfolding on_state
  check_during g end now own =
      if not g.has_reader then unknown_load fl else on_state g.state end now own

  -- FixedLoadGuard.Check
  unfoldable pub fixed_check : String → LoadResult F
  fixed_check status =
      if status == "" then unknown_load fl else record { status = status; figures = no_figures fl }
