-- ===== src/Web/Subscriptions/Actions.antt =====
-- What the handlers of Subscriptions leave behind.
use bagualu.Base.{◌+◌, String, ◌≡◌, true, false, Option, some, ◌∷◌, arith}
use bagualu.Web.Api.{Result, ok, err}
use bagualu.Web.Ui.{error, View, Server, Call, try_catch, finally}
use bagualu.Web.Ui.Saves.{finished}
use bagualu.Web.Subscriptions.{
  Draft, Shown, submit, load_preview, create_call, preview_call, preview_format,
}

-- The effects of a creation that the server answered with `token`.
abbrev pub created : {P : Type 0} → Result String → View Draft (Shown P) → View Draft (Shown P)
created (ok token) u = record u {
  opened = false;
  resets = u.resets + 1;
  reloads = u.reloads + 1;
  extra = record u.extra { token = token; token_open = true };
}
created (err e) u = u

abbrev pub previewed :
    {P : Type 0} → Call Draft → Result P → View Draft (Shown P) → View Draft (Shown P)
previewed call (ok value) u = record u {
  calls = call ∷ u.calls;
  extra = record u.extra { preview = some value; preview_open = true };
}
previewed call (err e) u = record u { calls = call ∷ u.calls; notices = error e ∷ u.notices }

module _ {P : Type 0} (v : View Draft (Shown P)) where
  -- Creating a link sends one request, with all four formats where none are chosen. Exactly on
  -- success the answered token is shown, the dialog closed, the form cleared and the table
  -- reloaded; the button is never left busy.
  pub submit-created :
      (server : Server Draft String) (values : Draft)
      → submit server values v ≡ (
        ok tt,
        finished
            (λ _. "订阅链接已创建")
            (created (server v.calls (create_call values)))
            (create_call values)
            (server v.calls (create_call values))
            (record v { busy = false }),
      )
  unfolding submit try_catch finally
  submit-created server values = ground arith

  -- A preview asks for the chosen format, or the link's own, or clash. On success it is opened; on
  -- failure the last preview stays as it was.
  load_preview-previewed :
      (encode : String → String) (server : Server Draft P) (i : String)
      (default_format format : Option String)
      → load_preview encode server i default_format format v ≡ (
        ok tt,
        previewed
            (preview_call encode i (preview_format format default_format))
            (server v.calls (preview_call encode i (preview_format format default_format)))
            v,
      )
  unfolding load_preview try_catch
  load_preview-previewed encode server i default_format format = ground arith
