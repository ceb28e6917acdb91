-- ===== src/Web/History/Cells.antt =====
-- What the cells of the measurement history in web/admin/src/main.tsx show.
use bagualu.Base.{
  ℕ, ◌≤◌, String, ◌≡◌, refl, sym, ◌∙◌, ◌≢◌, ◌⊎◌, inl, inr, true, false, List, [], ◌∷◌, arith, ◌==◌,
  nat_eq, string_eq, str_eq_iff, Bool-cases, All,
}
use bagualu.Web.Number.{Number, num}
use bagualu.Web.Format.{text, format_measurement_bytes, measurement_of}
use bagualu.Web.History.{MeasurementRow, failure_reason, text_items, grown, ◌or◌}

-- The first of some texts that is not empty, or a last resort.
abbrev pub IsFirst : List String → String → String → Type 0
IsFirst [] last s = s ≡ last
IsFirst (x ∷ xs) last s = ((x ≢ "") × (s ≡ x)) ⊎ ((x ≡ "") × IsFirst xs last s)

or-cases : (a b : String) → ((a ≢ "") × ((a or b) ≡ a)) ⊎ ((a ≡ "") × ((a or b) ≡ b))
or-cases a b = elim (Bool-cases (a == "")) [
  | inl e ↦ inr ((str_eq_iff a "").0 e, rw e refl)
  | inr e ↦ inl (λ same. cc (e, (str_eq_iff a "").1 same), rw e refl)
]

IsFirst-or :
    (a b : String) (xs : List String) (last : String)
    → IsFirst xs last b
    → IsFirst (a ∷ xs) last (a or b)
IsFirst-or a b xs last h = elim (or-cases a b) [ inl k ↦ inl k | inr k ↦ inr (k.0, rw (k.1) h) ]

or-ne : (a b : String) → b ≢ "" → (a or b) ≢ ""
or-ne a b h = elim (or-cases a b) [
  | inl k ↦ λ e. k.0 (sym (k.1) ∙ e)
  | inr k ↦ λ e. h (sym (k.1) ∙ e)
]

dash_ne : ◌≢◌ {A = String} "—" ""
dash_ne e = cc

or_dash : (a : String) → (a or "—") ≢ ""
or_dash a = or-ne a "—" dash_ne

-- A counter that did not grow between the two readings gives no amount.
grown-dash :
    (parse : String → Number) (before after : ℕ)
    → after ≤ before
    → format_measurement_bytes parse (num (grown before after)) ≡ text "—"
unfolding format_measurement_bytes measurement_of grown
grown-dash parse before after h = ground arith

-- A row of the history says why it failed: a dash for a success, and else the first of the error's
-- detail, code and stage that is not empty, or that the reason is unknown; no text item of the
-- expanded row is empty.
pub row-IsTold :
    (row : MeasurementRow)
    → (((row.success ≡ true) × (failure_reason row ≡ "—"))
        ⊎ ((row.success ≡ false)
            × IsFirst
                (row.error_detail ∷ row.error_code ∷ row.failure_stage ∷ [])
                "未知原因"
                (failure_reason row)))
      × All (λ item. item.1 ≢ "") (text_items row)
unfolding failure_reason text_items
row-IsTold row = (
  elim (Bool-cases row.success) [
    | inl e ↦ inl (e, rw e refl)
    | inr e ↦ inr (
      e,
      rw e (
          IsFirst-or row.error_detail _ (row.error_code ∷ row.failure_stage ∷ []) "未知原因" (
            IsFirst-or row.error_code _ (row.failure_stage ∷ []) "未知原因"
              (IsFirst-or row.failure_stage "未知原因" [] "未知原因" refl))),
    )
  ],
  (
    or_dash row.error_code,
    (
      or_dash row.failure_stage,
      (
        or_dash row.error_detail,
        (
          or_dash row.test_url,
          (
            or_dash row.speed_source,
            (or_dash row.baseline_target, (or_dash row.load_status, (or_dash row.exit_ip, tt))),
          ),
        ),
      ),
    ),
  ),
)
