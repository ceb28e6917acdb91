-- ===== src/Web/App.antt =====
-- App of web/admin/src/main.tsx: who is signed in, and which page is shown.
mod Tests
pub mod Session
pub mod Menu
use bagualu.Base.{String, Bool, true, false, Option, none, some, List, [], ◌∷◌, ltb, if◌then◌else◌}
use bagualu.Web.Api.{Browser, Reply, Result, ok, err, has_token, settle, login}

pub data Page : Type 0 where
  dashboard runtime upstreams nodes groups tests reports logs keys subscriptions settings : Page

-- The menu, `nav`: its groups with the keys of their items.
abbrev pub nav : List (String × List Page)
nav =
    ("资源", dashboard ∷ upstreams ∷ nodes ∷ groups ∷ subscriptions ∷ [])
    ∷ ("测试", runtime ∷ tests ∷ reports ∷ [])
    ∷ ("系统", settings ∷ logs ∷ keys ∷ [])
    ∷ []

-- What `content` renders: a component, or DataPage with its title, endpoint and createLabel.
pub data Screen : Type 0 where
  component : String → Screen
  data_page : String → String → Option String → Screen

pub content : Page → Screen
content dashboard = component "Dashboard"
content tests = component "Tests"
content runtime = component "Runtime"
content logs = component "Logs"
content upstreams = component "Upstreams"
content nodes = component "Nodes"
content subscriptions = component "Subscriptions"
content settings = component "Settings"
content groups = data_page "分组" "/groups" (some "分组")
content reports = data_page "流量报表" "/reports/summary" none
content keys = data_page "API Key" "/api-keys" (some "API Key")

pub record App : Type 0 where
  pub browser : Browser
  pub authenticated : Bool
  pub page : Page

-- Loading the console: useState(() => Boolean(sessionStorage.getItem(…))).
pub mount : Browser → App
mount b = record { browser = b; authenticated = has_token b.token; page = dashboard }

-- `expire`, the listener on "bagualu-auth-expired", runs for each dispatch.
heard : Browser → Browser → Bool → Bool
heard before after authenticated = if ltb before.expired after.expired then false else authenticated

pub data Event (T : Type 0) : Type 0 where
  -- setPage
  navigated : Page → Event T
  -- the reply to a request that any page has sent, under whichever token
  replied : Reply T → Event T
  -- the reply to Login's request
  login_replied : Reply String → Event T
  -- the page is loaded anew
  reloaded : Event T

-- onLogin
on_login : Result String → Bool → Bool
on_login (ok token) authenticated = true
on_login (err e) authenticated = authenticated

module _ {T : Type 0} where
  pub step : App → Event T → App
  unfolding heard on_login mount
  step a (navigated p) = record a { page = p }
  step a (replied reply) =
      let b = (settle reply a.browser).1 in
      record a { browser = b; authenticated = heard a.browser b a.authenticated }
  step a (login_replied reply) =
      let (result, b) = login reply a.browser in
      record a { browser = b; authenticated = on_login result (heard a.browser b a.authenticated) }
  step a reloaded = mount a.browser

  pub run : App → List (Event T) → App
  run a [] = a
  run a (e ∷ es) = run (step a e) es
