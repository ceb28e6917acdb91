-- ===== src/Web/Number.antt =====
-- JavaScript numbers and loosely typed values, as web/admin/src/main.tsx uses them.
use bagualu.Base.{
  ℕ, ◌+◌, ◌-◌, ◌*◌, ◌/◌, String, Bool, true, false, ltb, ◌==◌, nat_eq, string_eq, if◌then◌else◌,
}
use bagualu.Base.Order.{nearest}

-- A double. Each finite one is a whole number of steps of 1 / 2 ^ k: `fin m k` is m / 2 ^ k and
-- `neg m k` is -(m + 1) / 2 ^ k. The sign of zero is dropped, which no formatter shows.
pub data Number : Type 0 where
  nan pos_inf neg_inf : Number
  fin : ℕ → ℕ → Number
  neg : ℕ → ℕ → Number

abbrev pub whole : ℕ → Number
whole n = fin n 0

-- Number.isFinite
abbrev pub is_finite : Number → Bool
is_finite (fin m k) = true
is_finite (neg m k) = true
is_finite _ = false

-- x < 0
abbrev pub is_negative : Number → Bool
is_negative (neg m k) = true
is_negative neg_inf = true
is_negative _ = false

-- x > 0
abbrev pub is_positive : Number → Bool
is_positive (fin m k) = ltb 0 m
is_positive pos_inf = true
is_positive _ = false

-- Math.round of m / w: to the nearest whole number, a half upwards.
abbrev pub round : ℕ → ℕ → ℕ
round m w = nearest m w

-- Math.round of -n / w, as the number of ones below zero: a half goes up, towards zero.
abbrev pub round_below : ℕ → ℕ → ℕ
round_below n w = (2 * n + w - 1) / (2 * w)

-- A value of unknown type, as the API's JSON holds it.
pub data Value : Type 0 where
  undefined null : Value
  bool : Bool → Value
  num : Number → Value
  str : String → Value

-- Number(value); the conversion of a text is the parameter.
abbrev pub to_number : (String → Number) → Value → Number
to_number parse undefined = nan
to_number parse null = whole 0
to_number parse (bool b) = whole (if b then 1 else 0)
to_number parse (num n) = n
to_number parse (str s) = parse s

-- Boolean(value), the test of `||`, `?:` and `if`.
abbrev pub is_zero : ℕ → Bool
is_zero m = m == 0

abbrev pub truthy : Value → Bool
truthy undefined = false
truthy null = false
truthy (bool b) = b
truthy (num nan) = false
truthy (num (fin m k)) = if is_zero m then false else true
truthy (num _) = true
truthy (str s) = if s == "" then false else true
