-- ===== src/Web/Nodes/Tests.antt =====
-- The handlers of Nodes with a server that answers.
use bagualu.Base.{ℕ, String, false, none, []}
use bagualu.Web.Api.{ok}
use bagualu.Web.Ui.{View, Server}

abbrev idle : View String (Unit {0})
idle = record {
  busy = false;
  opened = false;
  calls = [];
  notices = [];
  reloads = 1;
  resets = 0;
  editing = none;
  target = none;
  extra = tt;
}

abbrev answering : Server String ℕ
answering calls call = ok 3
