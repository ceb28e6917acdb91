-- ===== src/Web/Traffic.antt =====
-- Runtime of web/admin/src/main.tsx: the samples of the traffic chart. The byte counters of the
-- API are whole numbers below 2 ^ 53.
mod Tests
pub mod Window
pub mod Chart
use bagualu.Base.Order.{nearest}
use bagualu.Base.{
  ℕ, zero, suc, ◌-◌, ◌*◌, min, max, Option, none, some, List, [], ◌∷◌, ◌++◌, last_of, count,
}

pub record Samples : Type 0 where
  pub download : List ℕ
  pub upload : List ℕ
  pub last_download : Option ℕ
  pub last_upload : Option ℕ

abbrev pub start : Samples
start = record { download = []; upload = []; last_download = none; last_upload = none }

-- last === undefined ? 0 : Math.max(0, bytes - last); a difference below 0 is cut off by -.
abbrev pub speed : ℕ → Option ℕ → ℕ
speed bytes none = 0
speed bytes (some last) = bytes - last

-- samples.slice(-30)
abbrev pub last_30 : List ℕ → List ℕ
last_30 = last_of 30

-- The effect that runs when the counters of the API change.
pub sample : ℕ → ℕ → Samples → Samples
sample down up s = record {
  download = last_30 (s.download ++ speed down s.last_download ∷ []);
  upload = last_30 (s.upload ++ speed up s.last_upload ∷ []);
  last_download = some down;
  last_upload = some up;
}

pub observe : List (ℕ × ℕ) → Samples → Samples
observe [] s = s
observe ((down, up) ∷ rest) s = observe rest (sample down up s)

-- Math.max(...samples, d)
abbrev pub maximum : ℕ → List ℕ → ℕ
maximum d [] = d
maximum d (x ∷ xs) = max x (maximum d xs)

pub scale_max : Samples → ℕ
scale_max s = maximum 1 (s.download ++ s.upload)

pub peak_rate : Samples → ℕ
peak_rate s = maximum 0 (s.download ++ s.upload)

-- samples[samples.length - 1] || 0
abbrev pub current : List ℕ → ℕ
current [] = 0
current (x ∷ []) = x
current (x ∷ xs) = current xs

-- Math.round(ratio * (sampleCount - 1)) for the ratio p / q of the plot's width.
pub hover_index : ℕ → ℕ → ℕ → ℕ
hover_index count p q = nearest (min p q * (count - 1)) q

-- samples[hoverIndex] || 0
abbrev pub sample_at : List ℕ → ℕ → ℕ
sample_at [] i = 0
sample_at (x ∷ xs) zero = x
sample_at (x ∷ xs) (suc i) = sample_at xs i
