-- ===== src/Web/Traffic/Window.antt =====
-- The samples of the traffic chart.
use mathlib.Core.List.{append-nil, append_assoc}
use bagualu.Base.{
  ℕ, ◌-◌, ◌*◌, ◌≤◌, ◌<◌, min, ◌≡◌, refl, ap, ◌∙◌, Option, none, some, List, [], ◌∷◌, ◌++◌, arith,
  All, last_of-last_of-append, count,
}
use bagualu.Base.Order.{nearest-le}
use bagualu.Web.Traffic.{
  Samples, start, speed, last_30, sample, observe, maximum, scale_max, hover_index,
}

-- The rates between successive readings of a counter.
abbrev pub rates : Option ℕ → List ℕ → List ℕ
rates last [] = []
rates last (bytes ∷ rest) = speed bytes last ∷ rates (some bytes) rest

abbrev pub downs : List (ℕ × ℕ) → List ℕ
downs [] = []
downs ((down, up) ∷ rest) = down ∷ downs rest

abbrev pub ups : List (ℕ × ℕ) → List ℕ
ups [] = []
ups ((down, up) ∷ rest) = up ∷ ups rest

-- The whole run of rates that a cut list of samples stands for.
window_step :
    (samples all_rates : List ℕ) (rate : ℕ)
    → samples ≡ last_30 all_rates
    → last_30 (samples ++ rate ∷ []) ≡ last_30 (all_rates ++ rate ∷ [])
window_step samples all_rates rate h =
    ap (λ l. last_30 (l ++ rate ∷ [])) h ∙ last_of-last_of-append 30 all_rates (rate ∷ [])

observe_from :
    (readings : List (ℕ × ℕ)) (s : Samples) (ds us : List ℕ)
    → s.download ≡ last_30 ds
    → s.upload ≡ last_30 us
    → ((observe readings s).download ≡ last_30 (ds ++ rates s.last_download (downs readings)))
      × ((observe readings s).upload ≡ last_30 (us ++ rates s.last_upload (ups readings)))
unfolding observe sample
observe_from [] s ds us hd hu = (rw append-nil hd, rw append-nil hu)
observe_from ((down, up) ∷ rest) s ds us hd hu =
    let (ihd, ihu) =
      observe_from rest (sample down up s) (ds ++ speed down s.last_download ∷ [])
        (us ++ speed up s.last_upload ∷ []) (window_step s.download ds _ hd)
        (window_step s.upload us _ hu) in
    (ihd ∙ ap last_30 (append_assoc ds _ _), ihu ∙ ap last_30 (append_assoc us _ _))

-- After any readings the chart holds the last 30 of all rates between successive readings, the
-- first reading counting as 0 and a counter that fell back as 0.
pub observe-window :
    (readings : List (ℕ × ℕ))
    → ((observe readings start).download ≡ last_30 (rates none (downs readings)))
      × ((observe readings start).upload ≡ last_30 (rates none (ups readings)))
observe-window readings = observe_from readings start [] [] refl refl

maximum-All : (m d : ℕ) (xs : List ℕ) → maximum d xs ≤ m → All (λ x. x ≤ m) xs
maximum-All m d [] h = tt
maximum-All m d (x ∷ xs) h = (omega arith, maximum-All m d xs (omega arith))

maximum-ge : (d : ℕ) (xs : List ℕ) → d ≤ maximum d xs
maximum-ge d [] = omega arith
maximum-ge d (x ∷ xs) = omega (arith, maximum-ge d xs)

All-of_append : (P : ℕ → Type 0) (xs ys : List ℕ) → All P (xs ++ ys) → All P xs × All P ys
All-of_append P [] ys h = (tt, h)
All-of_append P (x ∷ xs) ys h = let (hx, hy) = All-of_append P xs ys h.1 in ((h.0, hx), hy)

-- The scale of the chart is positive and no sample of either curve exceeds it, so every point
-- `bottom - value / max * height` lies inside the plot.
pub scale_max-bounds :
    (s : Samples)
    → (0 < scale_max s)
      × All (λ x. x ≤ scale_max s) s.download
      × All (λ x. x ≤ scale_max s) s.upload
unfolding scale_max
scale_max-bounds s =
    let (downs_fit, ups_fit) =
      All-of_append (λ x. x ≤ scale_max s) s.download s.upload
        (maximum-All (scale_max s) 1 _ (omega arith)) in
    (maximum-ge 1 (s.download ++ s.upload), downs_fit, ups_fit)

-- Wherever the pointer is over a chart with samples, the highlighted point is one of them.
pub hover_index-lt : (count p q : ℕ) → 0 < q → 0 < count → hover_index count p q < count
unfolding hover_index
hover_index-lt count p q hq hc =
    let fits : min p q * (count - 1) ≤ (count - 1) * q = grind arith in
    omega (arith, nearest-le (min p q * (count - 1)) q (count - 1) hq fits)
