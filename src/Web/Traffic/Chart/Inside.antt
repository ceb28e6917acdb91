-- ===== src/Web/Traffic/Chart/Inside.antt =====
-- The curves of the traffic chart in web/admin/src/main.tsx stay inside its plot.
use bagualu.Base.{ℕ, zero, suc, ◌+◌, ◌*◌, ◌≤◌, ◌<◌, some, List, [], ◌∷◌, arith, length, All}
use bagualu.Web.Traffic.{Samples, scale_max, sample_at, hover_index}
use bagualu.Web.Traffic.Window.{scale_max-bounds, hover_index-lt}
use bagualu.Web.Traffic.Chart.{
  Point, sample_count, span, x_at, y_at, points_from, make_points, hover_point, tooltip_x,
  left_edge, right_edge, top_edge, bottom_edge,
}

-- A point inside the plot, for a number of steps and a scale.
abbrev pub IsInside : ℕ → ℕ → Point → Type 0
IsInside width peak p =
    (left_edge * width ≤ p.x)
    × (p.x ≤ right_edge * width)
    × (top_edge * peak ≤ p.y)
    × (p.y ≤ bottom_edge * peak)

point-IsInside :
    (width peak index value : ℕ)
    → index ≤ width
    → value ≤ peak
    → IsInside width peak (record { x = x_at width index; y = y_at peak value })
point-IsInside width peak index value hi hv = (omega arith, omega arith, omega arith, omega arith)

points_from-All :
    (width peak index : ℕ) (l : List ℕ)
    → index + length l ≤ suc width
    → All (λ v. v ≤ peak) l
    → All (IsInside width peak) (points_from width peak index l)
unfolding points_from
points_from-All width peak index [] h each = tt
points_from-All width peak index (v ∷ l) h each = (
  point-IsInside width peak index v (omega arith) each.0,
  points_from-All width peak (suc index) l (omega arith) each.1,
)

sample_at-le : (m i : ℕ) (l : List ℕ) → All (λ v. v ≤ m) l → sample_at l i ≤ m
sample_at-le m i [] each = omega arith
sample_at-le m zero (v ∷ l) each = each.0
sample_at-le m (suc i) (v ∷ l) each = sample_at-le m i l each.1

-- Every point of both curves lies inside the plot, whatever was sampled: between its left and right
-- edges and between its top and bottom edges.
pub make_points-IsInside :
    (s : Samples)
    → All (IsInside (span s) (scale_max s)) (make_points s s.download)
      × All (IsInside (span s) (scale_max s)) (make_points s s.upload)
unfolding make_points
make_points-IsInside s =
    let (pos, downs, ups) = scale_max-bounds s in
    (
      points_from-All (span s) (scale_max s) 0 s.download (omega arith) downs,
      points_from-All (span s) (scale_max s) 0 s.upload (omega arith) ups,
    )

-- The point of a hovered sample lies inside the plot, and its tooltip of width 144 too.
hover_point-IsInside :
    (s : Samples) (i : ℕ)
    → i < sample_count s
    → IsInside (span s) (scale_max s) (hover_point s (some i))
      × (left_edge * span s ≤ tooltip_x s (some i))
      × (tooltip_x s (some i) + 144 * span s ≤ right_edge * span s)
unfolding hover_point tooltip_x
hover_point-IsInside s i h =
    let (pos, downs, ups) = scale_max-bounds s in
    let down = sample_at-le (scale_max s) i s.download downs in
    let up = sample_at-le (scale_max s) i s.upload ups in
    (
      point-IsInside (span s) (scale_max s) i _ (omega arith) (omega arith),
      omega arith,
      omega arith,
    )

-- Wherever the pointer is over a chart with samples, at the ratio p / q of its width, the point
-- that is highlighted lies inside the plot, and so does the tooltip of width 144 beside it.
pub hover-IsInside :
    (s : Samples) (p q : ℕ)
    → 0 < q
    → 0 < sample_count s
    → let i = hover_index (sample_count s) p q in
      IsInside (span s) (scale_max s) (hover_point s (some i))
      × (left_edge * span s ≤ tooltip_x s (some i))
      × (tooltip_x s (some i) + 144 * span s ≤ right_edge * span s)
hover-IsInside s p q hq hc =
    hover_point-IsInside s (hover_index (sample_count s) p q)
      (hover_index-lt (sample_count s) p q hq hc)
