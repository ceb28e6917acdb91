-- ===== src/Base/Order.antt =====
-- Rounding and powers of two on the native numbers.
use Prim.Native.Nat.{ℕ, zero, suc, ◌+◌, ◌*◌, ◌/◌, ◌^◌, ◌≤◌, ◌<◌}
use native.Mathlib.Omega.{arith}
use native.Mathlib.Decide.{dec_lt}
use native.Mathlib.Nat.{pow-zero, pow-suc, mul-pos, mod-lt, div-add-mod'}

pub pow-pos : (b k : ℕ) → 0 < b → 0 < b ^ k
pow-pos b zero h = rw pow-zero (omega arith)
pow-pos b (suc k) h = rw pow-suc (mul-pos (pow-pos b k h) h)

-- The quotient rounded to the nearest whole number, a half upwards.
abbrev pub nearest : ℕ → ℕ → ℕ
nearest x w = (2 * x + w) / (2 * w)

pub nearest_bounds :
    (x w : ℕ) → 0 < w → (2 * (nearest x w * w) ≤ 2 * x + w) × (2 * x < 2 * (nearest x w * w) + w)
nearest_bounds x w h =
    let split = div-add-mod' (2 * x + w) (2 * w) in
    let small = mod-lt (2 * x + w) {m = 2 * w} (omega arith) in (omega arith, omega arith)

pub nearest-ge : (x w n : ℕ) → 0 < w → n * w ≤ x → n ≤ nearest x w
nearest-ge x w n h le = elim (dec_lt (nearest x w) n) [
  | yes below ↦ absurd (grind (arith, nearest_bounds x w h))
  | no above ↦ omega arith
]

pub nearest-le : (x w n : ℕ) → 0 < w → x ≤ n * w → nearest x w ≤ n
nearest-le x w n h le = elim (dec_lt n (nearest x w)) [
  | yes above ↦ absurd (grind (arith, nearest_bounds x w h))
  | no below ↦ omega arith
]
