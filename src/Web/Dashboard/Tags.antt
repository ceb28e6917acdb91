-- ===== src/Web/Dashboard/Tags.antt =====
-- When a state is shown as good by StateTag of web/admin/src/main.tsx.
use bagualu.Base.{
  String, ◌≡◌, refl, ◌≢◌, ◌↔◌, inl, inr, Bool, true, false, Option, none, some, ◌==◌, nat_eq,
  string_eq, str_eq_iff, Bool-cases,
}
use bagualu.Web.Dashboard.{
  good_states, is_listed, string_of, is_given, state_tag, or_other, color_of,
}

not_same : (s t : String) → (s == t) ≡ false → s ≢ t
not_same s t h e = cc (h, (str_eq_iff s t).1 e)

color_of-success : (good given : Bool) → (color_of good given ≡ "success") ↔ (good ≡ true)
color_of-success true given = ((λ h. refl), (λ h. refl))
color_of-success false true = ((λ h. absurd (not_same "warning" "success" refl h)), (λ h. cc h))
color_of-success false false = ((λ h. absurd (not_same "default" "success" refl h)), (λ h. cc h))

or_other-given : (value : Option String) (other : String) → other ≢ "" → or_other value other ≢ ""
or_other-given none other h = h
or_other-given (some s) other h = elim (Bool-cases (s == "")) [
  | inl e ↦ rw e h
  | inr e ↦ rw e (not_same s "" e)
]

-- The tag of a state is green exactly for the five good states, in the case that `lower` gives, and
-- its text is never empty.
pub state_tag-shown :
    (lower : String → String) (value : Option String)
    → (((state_tag lower value).color ≡ "success")
        ↔ (is_listed good_states (lower (string_of value)) ≡ true))
      × ((state_tag lower value).label ≢ "")
unfolding state_tag
state_tag-shown lower value = (
  color_of-success (is_listed good_states (lower (string_of value))) (is_given value),
  or_other-given value "未知" (not_same "未知" "" refl),
)
