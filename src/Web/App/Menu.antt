-- ===== src/Web/App/Menu.antt =====
-- The menu of App (web/admin/src/main.tsx).
use bagualu.Base.{
  ℕ, ◌+◌, String, ◌≡◌, refl, List, [], ◌∷◌, ◌++◌, ◌==◌, nat_eq, string_eq, if◌then◌else◌,
}
use bagualu.Web.App.{
  Page, nav, dashboard, runtime, upstreams, nodes, groups, tests, reports, logs, keys,
  subscriptions, settings,
}

-- The place of a page in the type `Page`.
abbrev index : Page → ℕ
index dashboard = 0
index runtime = 1
index upstreams = 2
index nodes = 3
index groups = 4
index tests = 5
index reports = 6
index logs = 7
index keys = 8
index subscriptions = 9
index settings = 10

abbrev count : ℕ → List Page → ℕ
count i [] = 0
count i (q ∷ qs) = if index q == i then 1 + count i qs else count i qs

abbrev entries : List (String × List Page) → List Page
entries [] = []
entries ((label, pages) ∷ others) = pages ++ entries others

-- Every page stands in the menu exactly once.
pub count-nav : (p : Page) → count (index p) (entries nav) ≡ 1
count-nav dashboard = refl
count-nav runtime = refl
count-nav upstreams = refl
count-nav nodes = refl
count-nav groups = refl
count-nav tests = refl
count-nav reports = refl
count-nav logs = refl
count-nav keys = refl
count-nav subscriptions = refl
count-nav settings = refl
