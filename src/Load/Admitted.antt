-- ===== src/Load/Admitted.antt =====
-- When the load guard of internal/application/network.go lets the Orchestrator start a throughput
-- test.
use bagualu.Base.{
  ℕ, ◌≤◌, String, ◌≡◌, refl, sym, ap, ◌∙◌, ◌≢◌, inl, inr, Bool, true, false, ◌||◌, Option, none,
  some, arith, ◌==◌, nat_eq, string_eq, str_eq_iff, Bool-cases,
}
use bagualu.Base.Floats.{Floats, zero_float}
use bagualu.Orchestrator.{TrafficSample, LoadFigures, TestJob, Answers, State, guarded, wrap_job}
use bagualu.Orchestrator.Accepted.{IsAccepted}
use bagualu.Orchestrator.Outcomes.{wrap_job-success}
use bagualu.Load.{
  LoadConfig, BandwidthLoadGuard, Readings, samples_of, is_nothing, is_below_zero, is_busy,
  with_threshold, window_of, download_rate, upload_rate, compare_rates, sampled_check, check,
}

module _ {F : Type 0} (fl : Floats F) where
  -- The rates between two samples: no counter went back, and neither direction used more of its
  -- capacity than the threshold.
  pub record HasRoom (c : LoadConfig F) (window : ℕ) (a b : TrafficSample) : Type 0 where
    pub download_went_on : fl.lt (download_rate fl window a b) (zero_float fl) ≡ false
    pub upload_went_on : fl.lt (upload_rate fl window a b) (zero_float fl) ≡ false
    pub download_below :
        fl.lt c.threshold (fl.div (download_rate fl window a b) c.download_capacity) ≡ false
    pub upload_below :
        fl.lt c.threshold (fl.div (upload_rate fl window a b) c.upload_capacity) ≡ false

  neither_left : (p q : Bool) → (p || q) ≡ false → p ≡ false
  neither_left p q h = ground arith

  neither_right : (p q : Bool) → (p || q) ≡ false → q ≡ false
  neither_right p q h = ground arith

  -- The guard was able to measure, and found room.
  abbrev pub IsIdle : BandwidthLoadGuard F → LoadConfig F → Readings → Type 0
  IsIdle g c r =
      (g.has_reader ≡ true)
      × (((fl.le c.download_capacity (zero_float fl) || fl.le c.upload_capacity (zero_float fl))
            ≡ false)
          × ((a : TrafficSample) × (b : TrafficSample) × ((samples_of r ≡ some (a, b))
                × HasRoom (with_threshold fl c) (window_of fl g.sample_window) a b)))

  not_clean : (s : String) → (s == "clean") ≡ false → s ≢ "clean"
  not_clean s h e = cc (h, (str_eq_iff s "clean").1 e)

  compare_rates-HasRoom :
      (g : BandwidthLoadGuard F) (c : LoadConfig F) (window now : ℕ) (a b : TrafficSample)
      → (compare_rates fl g c window now a b).0.status ≡ "clean"
      → HasRoom c window a b
  unfolding compare_rates
  compare_rates-HasRoom g c window now a b h =
      elim (Bool-cases (
        is_below_zero fl (download_rate fl window a b)
        || is_below_zero fl (upload_rate fl window a b))) [
          | inl n ↦
              let lost : (compare_rates fl g c window now a b).0.status ≡ "network_load_unknown" =
                rw n refl in
              absurd (not_clean "network_load_unknown" refl (sym lost ∙ h))
          | inr n ↦
              elim (Bool-cases
                (is_busy fl c (download_rate fl window a b) (upload_rate fl window a b))) [
                  | inl busy ↦
                      let full : (compare_rates fl g c window now a b).0.status ≡ "network_busy" =
                        simp (n, busy) refl in
                      absurd (not_clean "network_busy" refl (sym full ∙ h))
                  | inr idle ↦ record {
                    download_went_on = neither_left _ _ n;
                    upload_went_on = neither_right _ _ n;
                    download_below = neither_left _ _ idle;
                    upload_below = neither_right _ _ idle;
                  }
                ]
        ]

  sampled_check-HasRoom :
      (g : BandwidthLoadGuard F) (c : LoadConfig F) (now : ℕ)
      (samples : Option (TrafficSample × TrafficSample))
      → (sampled_check fl g c now samples).0.status ≡ "clean"
      → (a : TrafficSample) × (b : TrafficSample) × ((samples ≡ some (a, b))
          × HasRoom (with_threshold fl c) (window_of fl g.sample_window) a b)
  unfolding sampled_check
  sampled_check-HasRoom g c now none h = absurd (not_clean "network_load_unknown" refl h)
  sampled_check-HasRoom g c now (some (a, b)) h = (
    a,
    b,
    (refl, compare_rates-HasRoom g (with_threshold fl c) (window_of fl g.sample_window) now a b h),
  )

  check-IsIdle :
      (g : BandwidthLoadGuard F) (c : LoadConfig F) (r : Readings)
      → (check fl g c r).0.status ≡ "clean"
      → IsIdle g c r
  unfolding check
  check-IsIdle g c r h = elim (Bool-cases g.has_reader) [
    | inr e ↦
        let lost : (check fl g c r).0.status ≡ "network_load_unknown" = rw e refl in
        absurd (not_clean "network_load_unknown" refl (sym lost ∙ h))
    | inl e ↦
        elim (Bool-cases (is_nothing fl c.download_capacity || is_nothing fl c.upload_capacity)) [
          | inl n ↦
              let lost : (check fl g c r).0.status ≡ "network_load_unknown" = simp (e, n) refl in
              absurd (not_clean "network_load_unknown" refl (sym lost ∙ h))
          | inr n ↦
              let same : (check fl g c r).0 ≡ (sampled_check fl g c r.now (samples_of r)).0 =
                simp (e, n) refl in
              (
                e,
                (
                  n,
                  sampled_check-HasRoom g c r.now (samples_of r)
                      (sym (ap (λ x. x.status) same) ∙ h),
                ),
              )
        ]
  ]

-- The load that an attempt is told is the guard's answer to its readings.
abbrev pub IsGuarded :
    {F : Type 0} → Floats F → Answers F → BandwidthLoadGuard F → LoadConfig F → Readings → Type 0
IsGuarded fl a g c r = a.load ≡ some (check fl g c r).0

-- When every attempt of a throughput test asks a bandwidth guard, a delivered success comes from
-- one of the attempts 0 to Retry: in that attempt the baseline was available before and after the
-- run, the run succeeded without an error, and the checks around it passed; and the guard that this
-- attempt asked before the run had a reader, capacities and both readings, no counter had gone back,
-- and neither direction used more of its capacity than the threshold.
pub wrap_job-IsIdle :
    {F : Type 0} (fl : Floats F) (zero_figures : LoadFigures F) (job : TestJob)
    (script : ℕ → Answers F) (s : State F) (guards : ℕ → BandwidthLoadGuard F)
    (configs : ℕ → LoadConfig F) (readings : ℕ → Readings)
    → job.kind ≡ "throughput"
    → ((k : ℕ) → IsGuarded fl (script k) (guards k) (configs k) (readings k))
    → (wrap_job zero_figures job script s).0.success ≡ true
    → (k : ℕ) × ((k ≤ job.retry)
        × (IsAccepted zero_figures job (script k) × IsIdle fl (guards k) (configs k) (readings k)))
wrap_job-IsIdle fl zero_figures job script s guards configs readings throughput asked h =
    let ((k, above, below, accepted), proven) = wrap_job-success zero_figures job script s h in
    (
      k,
      (
        omega arith,
        (
          accepted,
          elim accepted.quiet [
            | inl other ↦ absurd (other throughput)
            | inr quiet ↦
                check-IsIdle fl (guards k) (configs k) (readings k)
                  (sym (ap (λ l. (guarded zero_figures job l).status) (asked k)) ∙ quiet.0)
          ],
        ),
      ),
    )
