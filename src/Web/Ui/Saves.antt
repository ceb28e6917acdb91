-- ===== src/Web/Ui/Saves.antt =====
-- What a handler that saves, deletes or starts something leaves behind.
use bagualu.Base.{String, ◌∷◌}
use bagualu.Web.Api.{Result, ok, err}
use bagualu.Web.Ui.{Call, View, success, error}

module _ {B X T : Type 0} where
  -- The answer decides: on success one notice, the effects of `done` and one reload; on failure
  -- one notice with the failure, and the dialog and its form stay as they are.
  abbrev pub finished :
      (T → String) → (View B X → View B X) → Call B → Result T → View B X → View B X
  finished text done call (ok value) v = record (done v) {
    calls = call ∷ v.calls;
    notices = success (text value) ∷ v.notices;
  }
  finished text done call (err e) v = record v {
    calls = call ∷ v.calls;
    notices = error e ∷ v.notices;
  }
