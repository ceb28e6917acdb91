-- ===== src/Web/Format/Rate.antt =====
-- What formatRate shows (web/admin/src/main.tsx).

use bagualu.Base.{ℕ, ◌+◌, ◌*◌, ◌^◌, ◌≤◌, ◌<◌, String, ◌≡◌, ap, ◌∙◌, ◌⊎◌, arith}
use bagualu.Base.Order.{nearest_bounds}
use bagualu.Web.Number.{fin}
use bagualu.Web.Format.{rate_of, format_rate, rate_units}
use bagualu.Web.Format.Scale.{
  IsScaled, IsScaled-needed, IsScaled-stopped, IsScaled-pos, scale-IsScaled,
}

-- The rate m / 2 ^ k, shown in the unit of `steps` divisions by 1024: `step` is the size of the
-- unit in steps of 1 / 2 ^ k.
pub record IsRateOf (m k digits : ℕ) (unit : String) : Type 0 where
  pub steps : ℕ
  pub step : ℕ
  pub known : steps ≤ 3
  pub named : unit ≡ rate_units steps
  pub sized : step ≡ 2 ^ k * 1024 ^ steps
  pub not_low : 2 * m < 2 * (digits * step) + step
  pub not_high : 2 * (digits * step) ≤ 2 * m + step
  pub large_enough : (steps ≡ 0) ⊎ (step ≤ m)
  pub unit_fits : (steps ≡ 3) ⊎ (m < 1024 * step)

rate_of-IsRateOf :
    (m k w unit : ℕ)
    → IsScaled 3 m (2 ^ k) 0 w unit
    → IsRateOf m k (rate_of m (w, unit)).digits (rate_of m (w, unit)).unit
unfolding rate_of
rate_of-IsRateOf m k w unit s =
    let (high, low) = nearest_bounds m w (IsScaled-pos k s) in
    record {
      steps = s.steps;
      step = w;
      known = s.within;
      named = ap rate_units (s.counted ∙ omega arith);
      sized = s.scaled;
      not_low = low;
      not_high = high;
      large_enough = IsScaled-needed s;
      unit_fits = IsScaled-stopped s;
    }

-- A finite, non-negative rate is shown in the largest unit that it reaches (at most GB/s), rounded
-- to within half of that unit.
pub format_rate-IsRateOf :
    (m k : ℕ) → IsRateOf m k (format_rate (fin m k)).digits (format_rate (fin m k)).unit
unfolding format_rate
format_rate-IsRateOf m k = rate_of-IsRateOf m k _ _ (scale-IsScaled 3 m (2 ^ k) 0)
