-- ===== src/Web/Pages/Tests.antt =====
-- The handlers of Login, DataPage, Tests and Settings with a server that answers.
use bagualu.Base.{ℕ, String, true, false, Option, none, some, []}
use bagualu.Web.Api.{ok}
use bagualu.Web.Ui.{View, Server}
use bagualu.Web.Pages.{Gate, Credentials}

abbrev view_of : {B X : Type 0} → X → View B X
view_of x = record {
  busy = false;
  opened = true;
  calls = [];
  notices = [];
  reloads = 1;
  resets = 0;
  editing = none;
  target = none;
  extra = x;
}

abbrev gate : View Credentials Gate
gate = view_of (record { error = none; entered = false })

abbrev page : View String (Unit {0})
page = view_of tt

abbrev answering : Server String ℕ
answering calls call = ok 3

abbrev page_of : View ℕ (Unit {0})
page_of = view_of tt

abbrev installer : Server ℕ (Option String)
installer calls call = ok (some "v1.19")
