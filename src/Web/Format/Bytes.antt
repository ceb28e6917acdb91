-- ===== src/Web/Format/Bytes.antt =====
-- What formatBytes shows (web/admin/src/main.tsx).
use bagualu.Base.{ℕ, ◌+◌, ◌*◌, ◌^◌, ◌≤◌, ◌<◌, String, ◌≡◌, ap, ◌∙◌, ◌⊎◌, inl, inr, arith}
use native.Mathlib.Decide.{ℕ_discrete}
use bagualu.Base.Order.{nearest_bounds, nearest-ge}
use bagualu.Web.Number.{fin}
use bagualu.Web.Format.{decimals_for, bytes_of, format_bytes, byte_units}
use bagualu.Web.Format.Scale.{
  IsScaled, IsScaled-stopped, IsScaled-pos, scale-IsScaled, IsScaled-needed,
}

-- The size m / 2 ^ k, shown as digits / 10 ^ decimals of the unit of `steps` divisions by 1024,
-- which is `step` steps of 1 / 2 ^ k.
pub record IsBytesOf (m k digits decimals : ℕ) (unit : String) : Type 0 where
  pub steps : ℕ
  pub step : ℕ
  pub known : steps ≤ 4
  pub named : unit ≡ byte_units steps
  pub sized : step ≡ 2 ^ k * 1024 ^ steps
  pub not_low : 2 * (m * 10 ^ decimals) < 2 * (digits * step) + step
  pub not_high : 2 * (digits * step) ≤ 2 * (m * 10 ^ decimals) + step
  pub large_enough : (steps ≡ 0) ⊎ (step ≤ m)
  pub unit_fits : (steps ≡ 4) ⊎ (m < 1024 * step)
  pub precise : ((steps ≡ 0) × (decimals ≡ 0)) ⊎ (100 ≤ digits)
  pub short : decimals ≤ 2

-- With two, one or no decimals the digits are at least 100.
decimals_for-precise :
    (m w unit : ℕ) → 0 < w → w ≤ m → 0 < unit → 100 * w ≤ m * 10 ^ decimals_for m w unit
unfolding decimals_for
decimals_for-precise m w unit p h u = ground arith

decimals_for-le : (m w unit : ℕ) → decimals_for m w unit ≤ 2
unfolding decimals_for
decimals_for-le m w unit = ground arith

decimals_for-zero : (m w unit : ℕ) → unit ≡ 0 → decimals_for m w unit ≡ 0
unfolding decimals_for
decimals_for-zero m w unit h = ground arith

bytes_of-IsBytesOf :
    (m k w unit : ℕ)
    → IsScaled 4 m (2 ^ k) 0 w unit
    → IsBytesOf m k
        (bytes_of m (w, unit)).digits
        (bytes_of m (w, unit)).decimals
        (bytes_of m (w, unit)).unit
unfolding bytes_of
bytes_of-IsBytesOf m k w unit s =
    let d = decimals_for m w unit in
    let pos = IsScaled-pos k s in
    let same : unit ≡ s.steps = s.counted ∙ omega arith in
    let (high, low) = nearest_bounds (m * 10 ^ d) w pos in
    record {
      steps = s.steps;
      step = w;
      known = s.within;
      named = ap byte_units same;
      sized = s.scaled;
      not_low = low;
      not_high = high;
      large_enough = IsScaled-needed s;
      unit_fits = IsScaled-stopped s;
      precise = elim (IsScaled-needed s) [
        | inl plain ↦ inl (plain, decimals_for-zero m w unit (omega arith))
        | inr fits ↦ elim (ℕ_discrete s.steps 0) [
          | yes plain ↦ inl (plain, decimals_for-zero m w unit (omega arith))
          | no larger ↦ inr (
              nearest-ge (m * 10 ^ d) w 100 pos
                (decimals_for-precise m w unit pos fits (omega arith)))
        ]
      ];
      short = decimals_for-le m w unit;
    }

-- A finite, non-negative size is shown in the largest unit that it reaches (at most TB), rounded to
-- within half of the last shown place, with at most two decimals and none for plain bytes, and with
-- at least three significant digits in every larger unit.
pub format_bytes-IsBytesOf :
    (m k : ℕ)
    → IsBytesOf m k
        (format_bytes (fin m k)).digits
        (format_bytes (fin m k)).decimals
        (format_bytes (fin m k)).unit
unfolding format_bytes
format_bytes-IsBytesOf m k = bytes_of-IsBytesOf m k _ _ (scale-IsScaled 4 m (2 ^ k) 0)
