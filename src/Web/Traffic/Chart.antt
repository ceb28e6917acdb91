-- ===== src/Web/Traffic/Chart.antt =====
-- The curves of the traffic chart of Runtime in web/admin/src/main.tsx. Coordinates are exact
-- fractions: an x is a whole number of parts of `span`, a y of parts of `scale_max`. The rounding of
-- IEEE division is not modelled.
pub mod Inside
use bagualu.Base.{ℕ, suc, ◌+◌, ◌-◌, ◌*◌, min, max, Option, none, some, List, [], ◌∷◌, ◌++◌, length}
use bagualu.Web.Traffic.{Samples, scale_max, sample_at}

abbrev pub left_edge : ℕ
left_edge = 66

abbrev pub right_edge : ℕ
right_edge = 636

abbrev pub top_edge : ℕ
top_edge = 22

abbrev pub bottom_edge : ℕ
bottom_edge = 224

pub record Point : Type 0 where
  pub x : ℕ
  pub y : ℕ

-- sampleCount
abbrev pub sample_count : Samples → ℕ
sample_count s = max (length s.download) (length s.upload)

-- Math.max(sampleCount - 1, 1)
abbrev pub span : Samples → ℕ
span s = max (sample_count s - 1) 1

abbrev pub x_at : ℕ → ℕ → ℕ
x_at width index = left_edge * width + index * (right_edge - left_edge)

abbrev pub y_at : ℕ → ℕ → ℕ
y_at peak value = bottom_edge * peak - value * (bottom_edge - top_edge)

-- samples.map((value, index) => …) from an index on
pub points_from : ℕ → ℕ → ℕ → List ℕ → List Point
points_from width peak index [] = []
points_from width peak index (value ∷ samples) =
    record { x = x_at width index; y = y_at peak value }
    ∷ points_from width peak (suc index) samples

unfoldable pub make_points : Samples → List ℕ → List Point
unfolding points_from scale_max
make_points s samples = points_from (span s) (scale_max s) 0 samples

-- downloadAreaPoints: the curve between the corners of the plot.
pub area_points : Samples → List Point
unfolding make_points
area_points s =
    record { x = left_edge * span s; y = bottom_edge * scale_max s }
    ∷ (make_points s s.download
        ++ record { x = right_edge * span s; y = bottom_edge * scale_max s } ∷ [])

-- hoverIndex === null ? 0 : samples[hoverIndex] || 0
abbrev pub hovered : Option ℕ → List ℕ → ℕ
hovered none samples = 0
hovered (some i) samples = sample_at samples i

abbrev pub hover_x : Samples → Option ℕ → ℕ
hover_x s none = 0
hover_x s (some i) = x_at (span s) i

pub hover_point : Samples → Option ℕ → Point
unfolding scale_max
hover_point s index = record {
  x = hover_x s index;
  y = y_at (scale_max s) (max (hovered index s.download) (hovered index s.upload));
}

-- tooltipX = Math.min(Math.max(hoverX - 72, chart.left), chart.right - 144)
pub tooltip_x : Samples → Option ℕ → ℕ
tooltip_x s index =
    min (max (hover_x s index - 72 * span s) (left_edge * span s)) ((right_edge - 144) * span s)
