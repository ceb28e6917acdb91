-- ===== src/Web/Subscriptions/Tests.antt =====
-- The handlers of Subscriptions with a server that answers.
use bagualu.Base.{ℕ, String, ◌≡◌, refl, true, false, none, some, []}
use bagualu.Web.Api.{ok}
use bagualu.Web.Ui.{View, Server}
use bagualu.Web.Subscriptions.{Draft, Shown, make_url}

abbrev idle : View Draft (Shown ℕ)
idle = record {
  busy = false;
  opened = true;
  calls = [];
  notices = [];
  reloads = 1;
  resets = 0;
  editing = none;
  target = none;
  extra = record { token = ""; token_open = false; preview = none; preview_open = false };
}

abbrev draft : Draft
draft = record {
  name = "main";
  group_id = "g";
  default_format = "clash";
  allowed_formats = none;
  healthy_only = true;
  enabled = true;
}

abbrev granting : Server Draft String
granting calls call = ok "secret"

urls : make_url (λ s. s) "http://r" "tok" (some "dae") ≡ "http://r/api/v1/subscribe/tok?format=dae"
unfolding make_url
urls = refl
