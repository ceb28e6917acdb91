-- ===== src/Web/Dashboard.antt =====
-- StateTag, Dashboard and what Settings shows of the core, in web/admin/src/main.tsx. A field that
-- is missing is `none`; toLowerCase is a parameter.
mod Tests
pub mod Tags
use bagualu.Base.{
  ℕ, ◌+◌, String, Bool, true, false, not, ◌||◌, Option, none, some, List, [], ◌∷◌, ◌==◌, nat_eq,
  string_eq, if◌then◌else◌,
}
use Prim.Native.String.{◌++◌ as join}

-- The colour of a tag and its text.
pub record StateTag : Type 0 where
  pub color : String
  pub label : String

abbrev pub good_states : List String
good_states = "running" ∷ "healthy" ∷ "success" ∷ "available" ∷ "已启用" ∷ []

abbrev pub is_listed : List String → String → Bool
is_listed [] s = false
is_listed (x ∷ l) s = (x == s) || is_listed l s

-- String(value) and value || other, for a text or undefined
abbrev pub string_of : Option String → String
string_of none = "undefined"
string_of (some s) = s

abbrev pub or_other : Option String → String → String
or_other none other = other
or_other (some s) other = if s == "" then other else s

abbrev pub is_given : Option String → Bool
is_given none = false
is_given (some s) = not (s == "")

abbrev pub color_of : Bool → Bool → String
color_of true given = "success"
color_of false true = "warning"
color_of false false = "default"

pub state_tag : (String → String) → Option String → StateTag
state_tag lower value = record {
  color = color_of (is_listed good_states (lower (string_of value))) (is_given value);
  label = or_other value "未知";
}

-- The numbers of /dashboard/summary.
pub record Summary : Type 0 where
  pub node_count : Option ℕ
  pub active : Option ℕ
  pub unreachable : Option ℕ
  pub expired : Option ℕ
  pub disabled : Option ℕ
  pub group_count : Option ℕ
  pub queue_length : Option ℕ
  pub running : Bool

-- value || 0
abbrev pub or_none : Option ℕ → ℕ
or_none none = 0
or_none (some n) = n

pub dashboard_stats : Summary → List (String × ℕ)
dashboard_stats s =
    ("节点总数", or_none s.node_count)
    ∷ ("可用节点", or_none s.active)
    ∷ ("异常节点", or_none s.unreachable + or_none s.expired)
    ∷ ("禁用节点", or_none s.disabled)
    ∷ ("分组", or_none s.group_count)
    ∷ ("测试队列", or_none s.queue_length)
    ∷ []

-- The three tags of the line of evidence: the service, the core and the tests.
pub dashboard_tags : (String → String) → Bool → Bool → List StateTag
unfolding state_tag
dashboard_tags lower core_running tests_running =
    state_tag lower (some "running")
    ∷ state_tag lower (some (if core_running then "running" else "未就绪"))
    ∷ state_tag lower (some (if tests_running then "running" else "idle"))
    ∷ []

-- The row of Mihomo in the state of the system, by the core's version.
pub core_row : Option String → String
core_row none = "未就绪"
core_row (some version) = if version == "" then "未就绪" else join "已连接 · " version

-- Settings: the tag of the core's state, from core.state and core.available.
pub settings_core_tag : (String → String) → Option String → Bool → StateTag
unfolding state_tag
settings_core_tag lower state available =
    state_tag lower (some (or_other state (if available then "running" else "stopped")))
