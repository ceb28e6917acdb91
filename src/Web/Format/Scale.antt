-- ===== src/Web/Format/Scale.antt =====
-- The scaling loop that formatRate and formatBytes share (web/admin/src/main.tsx).
use bagualu.Base.{
  ℕ, zero, suc, ◌+◌, ◌*◌, ◌^◌, ◌≤◌, ◌<◌, ◌≡◌, ◌∙◌, ◌⊎◌, inl, inr, arith, leb, Bool-cases,
}
use native.Mathlib.Nat.{pow-suc, mul-pos}
use native.Mathlib.Decide.{ℕ_discrete}
use bagualu.Base.Order.{pow-pos}
use bagualu.Web.Format.{scale}

-- After the loop on m / w: `steps` divisions were made, and they are as many as the bound and the
-- value allow.
pub record IsScaled (left m w unit w' unit' : ℕ) : Type 0 where
  pub steps : ℕ
  pub within : steps ≤ left
  pub counted : unit' ≡ unit + steps
  pub scaled : w' ≡ w * 1024 ^ steps
  pub stopped : steps < left → m < 1024 * w'
  pub needed : 0 < steps → w' ≤ m

last_fits : (n m w w' : ℕ) → w' ≡ w * 1024 * 1024 ^ n → (0 < n → w' ≤ m) → 1024 * w ≤ m → w' ≤ m
last_fits zero m w w' e fits big = omega arith
last_fits (suc n) m w w' e fits big = fits (omega arith)

IsScaled-suc :
    (left m w unit w' unit' : ℕ)
    → 1024 * w ≤ m
    → IsScaled left m (w * 1024) (unit + 1) w' unit'
    → IsScaled (suc left) m w unit w' unit'
IsScaled-suc left m w unit w' unit' big s = record {
  steps = suc s.steps;
  within = omega arith;
  counted = omega arith;
  scaled = s.scaled ∙ rw (pow-suc 1024 s.steps) (omega arith);
  stopped = λ h. s.stopped (omega arith);
  needed = λ _. last_fits s.steps m w w' s.scaled s.needed big;
}

pub scale-IsScaled :
    (left m w unit : ℕ) → IsScaled left m w unit (scale left m w unit).0 (scale left m w unit).1
unfolding scale
scale-IsScaled zero m w unit = record {
  steps = 0;
  within = omega arith;
  counted = omega arith;
  scaled = omega arith;
  stopped = λ h. absurd (omega arith);
  needed = λ h. absurd (omega arith);
}
scale-IsScaled (suc left) m w unit = elim (Bool-cases (leb (1024 * w) m)) [
  | inl big ↦
      rw big (
        IsScaled-suc left m w unit _ _ (ground arith) (scale-IsScaled left m (w * 1024) (unit + 1)))
  | inr small ↦ rw small (record {
    steps = 0;
    within = omega arith;
    counted = omega arith;
    scaled = omega arith;
    stopped = λ _. ground arith;
    needed = λ h. absurd (omega arith);
  })
]

pub IsScaled-pos : (k : ℕ) {left m unit w unit' : ℕ} → IsScaled left m (2 ^ k) unit w unit' → 0 < w
IsScaled-pos k s =
    rw s.scaled (mul-pos (pow-pos 2 k (omega arith)) (pow-pos 1024 s.steps (omega arith)))

module _ {left m w unit w' unit' : ℕ} (s : IsScaled left m w unit w' unit') where
  pub IsScaled-needed : (s.steps ≡ 0) ⊎ (w' ≤ m)
  IsScaled-needed = elim (ℕ_discrete s.steps 0) [
    | yes none_made ↦ inl none_made
    | no made ↦ inr (s.needed (omega arith))
  ]

  pub IsScaled-stopped : (s.steps ≡ left) ⊎ (m < 1024 * w')
  IsScaled-stopped = elim (ℕ_discrete s.steps left) [
    | yes all_made ↦ inl all_made
    | no fewer ↦ inr (s.stopped (omega (arith, s.within)))
  ]
