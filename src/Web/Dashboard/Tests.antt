-- ===== src/Web/Dashboard/Tests.antt =====
-- The dashboard at concrete answers of the server.
use bagualu.Base.{String, ◌≡◌, refl, true, false, none, some, [], ◌∷◌}
use bagualu.Web.Dashboard.{Summary, state_tag, dashboard_stats, core_row, settings_core_tag}

abbrev same : String → String
same s = s

abbrev summary : Summary
summary = record {
  node_count = some 12;
  active = some 9;
  unreachable = some 2;
  expired = none;
  disabled = some 1;
  group_count = none;
  queue_length = some 3;
  running = true;
}

tagged :
    (state_tag same none ≡ record { color = "default"; label = "未知" })
    × ((state_tag same (some "failed") ≡ record { color = "warning"; label = "failed" })
        × (state_tag same (some "success") ≡ record { color = "success"; label = "success" }))
unfolding state_tag
tagged = (refl, (refl, refl))

counted :
    dashboard_stats summary
    ≡ ("节点总数", 12) ∷ ("可用节点", 9) ∷ ("异常节点", 2) ∷ ("禁用节点", 1) ∷ ("分组", 0) ∷ ("测试队列", 3) ∷ []
unfolding dashboard_stats
counted = refl

settled : settings_core_tag same none false ≡ record { color = "warning"; label = "stopped" }
unfolding settings_core_tag
settled = refl

told_core : core_row (some "v1.19") ≡ "已连接 · v1.19"
unfolding core_row
told_core = refl
