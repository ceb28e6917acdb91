-- ===== src/Web/Traffic/Tests.antt =====
-- The chart after three readings.
use bagualu.Base.{ℕ, ◌≡◌, refl, List, [], ◌∷◌, All}
use bagualu.Web.Traffic.{start, observe, sample, scale_max, sample}
use bagualu.Web.Traffic.Chart.{span, make_points}
use bagualu.Web.Traffic.Chart.Inside.{IsInside, make_points-IsInside}

-- The third reading of the download counter fell back: the kernel was restarted.
abbrev readings : List (ℕ × ℕ)
readings = (100, 5) ∷ (350, 9) ∷ (20, 9) ∷ []

make_points-IsInside_example :
    let s = observe readings start in
    All (IsInside (span s) (scale_max s)) (make_points s s.download)
    × All (IsInside (span s) (scale_max s)) (make_points s s.upload)
make_points-IsInside_example = make_points-IsInside (observe readings start)

-- The curve of the downloads 0, 250 and 0, in halves of the width and 250ths of the height.
curve :
    let s = observe readings start in
    make_points s s.download
    ≡ record { x = 132; y = 56000 }
      ∷ record { x = 702; y = 5500 }
      ∷ record { x = 1272; y = 56000 }
      ∷ []
unfolding make_points observe sample scale_max
curve = refl
