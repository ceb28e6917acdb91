-- ===== src/Web/Format.antt =====
-- The formatters of web/admin/src/main.tsx.
mod Tests
mod Scale
pub mod Rate
pub mod Bytes
use bagualu.Base.{
  ℕ, zero, suc, ◌+◌, ◌*◌, ◌^◌, String, ltb, leb, ◌==◌, nat_eq, string_eq, if◌then◌else◌,
}
use bagualu.Base.Order.{nearest}
use bagualu.Web.Number.{
  Number, fin, neg, round, round_below, is_positive, is_finite, Value, to_number,
}

-- A template string `${n} ${unit}`, kept as its parts. The shown number is
-- digits / 10 ^ decimals.
pub record Quantity : Type 0 where
  pub digits : ℕ
  pub decimals : ℕ
  pub unit : String

-- What a formatter returns: a quantity, a whole number, or a fixed text.
pub data Shown : Type 0 where
  quantity : Quantity → Shown
  whole minus : ℕ → Shown
  text : String → Shown

-- The loop `while (value >= 1024 && unit < units.length - 1) { value /= 1024; unit += 1; }` on the
-- value m / w, with `left` = units.length - 1 - unit. A division by 1024 scales w and is exact.
unfoldable pub scale : ℕ → ℕ → ℕ → ℕ → ℕ × ℕ
scale zero m w unit = (w, unit)
scale (suc left) m w unit =
    let next = scale left m (w * 1024) (unit + 1) in if leb (1024 * w) m then next else (w, unit)

abbrev pub rate_units : ℕ → String
rate_units zero = "B/s"
rate_units (suc zero) = "KB/s"
rate_units (suc (suc zero)) = "MB/s"
rate_units _ = "GB/s"

abbrev pub byte_units : ℕ → String
byte_units zero = "B"
byte_units (suc zero) = "KB"
byte_units (suc (suc zero)) = "MB"
byte_units (suc (suc (suc zero))) = "GB"
byte_units _ = "TB"

unfoldable pub rate_of : ℕ → ℕ × ℕ → Quantity
rate_of m (w, unit) = record { digits = round m w; decimals = 0; unit = rate_units unit }

unfoldable pub format_rate : Number → Quantity
unfolding rate_of
format_rate (fin m k) = rate_of m (scale 3 m (2 ^ k) 0)
format_rate _ = record { digits = 0; decimals = 0; unit = "B/s" }

-- value.toFixed(decimals) on the value m / w, as a whole number of 1 / 10 ^ decimals.
abbrev pub to_fixed : ℕ → ℕ → ℕ → ℕ
to_fixed m w decimals = nearest (m * 10 ^ decimals) w

-- unit === 0 ? 0 : value >= 100 ? 0 : value >= 10 ? 1 : 2
unfoldable pub decimals_for : ℕ → ℕ → ℕ → ℕ
decimals_for m w unit =
    if unit == 0 then 0 else if leb (100 * w) m then 0 else if leb (10 * w) m then 1 else 2

unfoldable pub bytes_of : ℕ → ℕ × ℕ → Quantity
unfolding decimals_for
bytes_of m (w, unit) =
    let d = decimals_for m w unit in
    record { digits = to_fixed m w d; decimals = d; unit = byte_units unit }

unfoldable pub format_bytes : Number → Quantity
unfolding bytes_of
format_bytes (fin m k) = bytes_of m (scale 4 m (2 ^ k) 0)
format_bytes _ = record { digits = 0; decimals = 0; unit = "B" }

-- The formatters of values of unknown type; `parse` is JavaScript's conversion of a text.
module _ (parse : String → Number) where
  latency_of : Number → Shown
  latency_of (fin m k) =
      if ltb 0 m
      then quantity (record { digits = round m (2 ^ k); decimals = 0; unit = "ms" })
      else text "—"
  latency_of _ = text "—"

  pub format_latency : Value → Shown
  unfolding latency_of
  format_latency value = latency_of (to_number parse value)

  score_of : Number → Shown
  score_of (fin m k) = whole (round m (2 ^ k))
  score_of (neg m k) = minus (round_below (suc m) (2 ^ k))
  score_of _ = text "—"

  pub format_score : Value → Shown
  unfolding score_of
  format_score value = score_of (to_number parse value)

  pub format_score_metric : Value → Value → Shown
  format_score_metric value samples =
      if is_positive (to_number parse samples) then format_score value else text "未测"

  pub numeric_value : Value → Number
  numeric_value value =
      let number = to_number parse value in if is_finite number then number else neg 0 0

  unfoldable pub measurement_of : Number → Shown
  measurement_of (fin m k) =
      if m == 0
      then text "—"
      else if leb (1024 * 1024 * 2 ^ k) m
      then quantity
          (record { digits = to_fixed m (2 ^ k * 1024 * 1024) 1; decimals = 1; unit = "MB" })
      else quantity (record { digits = to_fixed m (2 ^ k * 1024) 1; decimals = 1; unit = "KB" })
  measurement_of _ = text "—"

  unfoldable pub format_measurement_bytes : Value → Shown
  unfolding measurement_of
  format_measurement_bytes value = measurement_of (to_number parse value)

unfoldable pub measurement_kind : String → String
measurement_kind value =
    if value == "connectivity"
    then "连通性"
    else if value == "ping"
    then "Ping"
    else if value == "throughput"
    then "下载测速"
    else if value == ""
    then "未知"
    else value
