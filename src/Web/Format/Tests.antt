-- ===== src/Web/Format/Tests.antt =====
-- Rates and sizes as the console shows them.
use bagualu.Base.{ℕ, String, ◌≡◌, refl}
use bagualu.Web.Number.{fin, nan}
use bagualu.Web.Format.{format_rate, format_bytes, scale, Quantity}
use bagualu.Web.Format.Bytes.{IsBytesOf, format_bytes-IsBytesOf}

abbrev quantity_of : ℕ → ℕ → String → Quantity
quantity_of digits decimals unit = record { digits = digits; decimals = decimals; unit = unit }

rates_shown :
    (format_rate (fin 1023 0) ≡ quantity_of 1023 0 "B/s")
    × (format_rate (fin 1536 0) ≡ quantity_of 2 0 "KB/s")
    × (format_rate (fin 1048575 0) ≡ quantity_of 1024 0 "KB/s")
    × (format_rate nan ≡ quantity_of 0 0 "B/s")
unfolding format_rate scale
rates_shown = (refl, refl, refl, refl)

bytes_shown :
    (format_bytes (fin 1536 0) ≡ quantity_of 150 2 "KB")
    × (format_bytes (fin 15728640 0) ≡ quantity_of 150 1 "MB")
unfolding format_bytes scale
bytes_shown = (refl, refl)

format_bytes-IsBytesOf_example : IsBytesOf 15728640 0 150 1 "MB"
unfolding format_bytes scale
format_bytes-IsBytesOf_example = format_bytes-IsBytesOf 15728640 0
