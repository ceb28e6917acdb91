-- ===== src/Web/Subscriptions.antt =====
-- Subscriptions of web/admin/src/main.tsx: its handlers and the addresses that it shows.
mod Tests
pub mod Actions
use Prim.Native.String.{◌++◌ as join}
use bagualu.Base.{
  String, Bool, true, false, Option, none, some, List, [], ◌∷◌, ◌==◌, nat_eq, string_eq,
  if◌then◌else◌,
}
use bagualu.Web.Ui.{
  Call, View, Ui, Server, success, ◌>>=◌, ◌>>◌, try_catch, finally, set_busy, set_open, set_extra,
  notify, reload, report, await, reset_fields, Notice,
}

abbrev pub formats : List String
formats = "clash" ∷ "base64" ∷ "sing-box" ∷ "dae" ∷ []

-- The values of the form; allowed_formats may be missing.
pub record Draft : Type 0 where
  pub name : String
  pub group_id : String
  pub default_format : String
  pub allowed_formats : Option (List String)
  pub healthy_only : Bool
  pub enabled : Bool

-- What the page keeps: the created token, and the last preview.
pub record Shown (P : Type 0) : Type 0 where
  pub token : String
  pub token_open : Bool
  pub preview : Option P
  pub preview_open : Bool

-- Without a format the address leaves the choice to the server.
pub make_url : (String → String) → String → String → Option String → String
make_url encode origin token none = join origin (join "/api/v1/subscribe/" (encode token))
make_url encode origin token (some format) = join origin (
    join "/api/v1/subscribe/"
      (join (encode token) (if format == "" then "" else join "?format=" (encode format))))

abbrev or_all : Option (List String) → Option (List String)
or_all none = some formats
or_all (some l) = some l

abbrev pub create_call : Draft → Call Draft
create_call values = record {
  method = "POST";
  path = "/subscription-links";
  body = some (record values { allowed_formats = or_all values.allowed_formats });
}

-- String(row.default_format || "clash")
abbrev or_clash : Option String → String
or_clash none = "clash"
or_clash (some d) = if d == "" then "clash" else d

-- format || …
abbrev pub preview_format : Option String → Option String → String
preview_format none default_format = or_clash default_format
preview_format (some f) default_format = if f == "" then or_clash default_format else f

abbrev pub preview_call : {B : Type 0} → (String → String) → String → String → Call B
preview_call encode i format = record {
  method = "GET";
  path = join (join (join "/subscription-links/" i) "/preview?format=") (encode format);
  body = none;
}

module _ {P : Type 0} where
  -- the answer is the created link's token
  pub submit : Server Draft String → Draft → Ui Draft (Shown P) (Unit {0})
  submit server values = do
    set_busy true
    finally
        (try_catch
          (do
            token ← await server (create_call values)
            set_extra (λ x. record x { token = token })
            set_open false
            set_extra (λ x. record x { token_open = true })
            reset_fields
            reload
            notify (success "订阅链接已创建"))
          report)
        (set_busy false)

  pub load_preview :
      (String → String)
      → Server Draft P
      → String
      → Option String
      → Option String
      → Ui Draft (Shown P) (Unit {0})
  load_preview encode server i default_format format =
      try_catch
        (do
          value ← await server (preview_call encode i (preview_format format default_format))
          set_extra (λ x. record x { preview = some value })
          set_extra (λ x. record x { preview_open = true }))
        report
