-- ===== src/Web/Ui.antt =====
-- The event handlers of the pages of web/admin/src/main.tsx: what a handler may touch, and
-- try/catch/finally over it. The server's answers are an argument of the handlers.
pub mod Saves
use bagualu.Base.{
  ℕ, ◌+◌, String, Bool, Option, none, some, List, ◌∷◌, ◌==◌, nat_eq, string_eq, if◌then◌else◌,
}
use bagualu.Web.App.{Page}
use bagualu.Web.Api.{Failure, Result, ok, err}

-- A call of api.get, api.post, api.put, api.remove or api.upload.
pub record Call (B : Type 0) : Type 0 where
  pub method : String
  pub path : String
  pub body : Option B

-- message.success, message.warning, and message.error with the message of what was thrown: every
-- failure of a call is an Error.
pub data Notice : Type 0 where
  success warning : String → Notice
  error : Failure → Notice

-- The state of a page that handlers set, and its calls and notices, the newest first.
pub record View (B X : Type 0) : Type 0 where
  -- saving, creating, clearing, submitting, installing
  pub busy : Bool
  pub opened : Bool
  pub calls : List (Call B)
  pub notices : List Notice
  -- how often the table was reloaded and the form was reset
  pub reloads : ℕ
  pub resets : ℕ
  -- the edited row, by its id if it has one
  pub editing : Option (Option String)
  -- the page that the handler went to
  pub target : Option Page
  -- what only one page keeps
  pub extra : X

abbrev pub Ui : Type 0 → Type 0 → Type 0 → Type 0
Ui B X A = View B X → Result A × View B X

-- How the server answers a call, after the calls before it.
abbrev pub Server : Type 0 → Type 0 → Type 0
Server B T = List (Call B) → Call B → Result T

module _ {B X A C : Type 0} where
  abbrev continue : Result A → (A → Ui B X C) → Ui B X C
  continue (ok a) f v = f a v
  continue (err e) f v = (err e, v)

  infixl 5 ◌>>=◌ ◌>>◌
  abbrev pub ◌>>=◌ : Ui B X A → (A → Ui B X C) → Ui B X C
  ◌>>=◌ m f v = let (r, v') = m v in continue r f v'

  abbrev pub ◌>>◌ : Ui B X A → Ui B X C → Ui B X C
  m >> n = m >>= λ _. n

module _ {B X : Type 0} where
  abbrev handle : Result (Unit {0}) → (Failure → Ui B X (Unit {0})) → Ui B X (Unit {0})
  handle (ok a) handler v = (ok a, v)
  handle (err e) handler v = handler e v

  -- try { body } catch (e) { handler(e) }
  unfoldable pub try_catch : Ui B X (Unit {0}) → (Failure → Ui B X (Unit {0})) → Ui B X (Unit {0})
  try_catch body handler v = let (r, v') = body v in handle r handler v'

  -- … finally { last }
  unfoldable pub finally : Ui B X (Unit {0}) → Ui B X (Unit {0}) → Ui B X (Unit {0})
  finally body last v = let (r, v') = body v in (r, (last v').1)

  abbrev pub set_busy : Bool → Ui B X (Unit {0})
  set_busy b v = (ok tt, record v { busy = b })

  abbrev pub set_open : Bool → Ui B X (Unit {0})
  set_open b v = (ok tt, record v { opened = b })

  abbrev pub notify : Notice → Ui B X (Unit {0})
  notify n v = (ok tt, record v { notices = n ∷ v.notices })

  abbrev pub reload : Ui B X (Unit {0})
  reload v = (ok tt, record v { reloads = v.reloads + 1 })

  abbrev pub reset_fields : Ui B X (Unit {0})
  reset_fields v = (ok tt, record v { resets = v.resets + 1 })

  -- catch (e) { message.error(e.message) }
  abbrev pub report : Failure → Ui B X (Unit {0})
  report e = notify (error e)

  -- await api.…
  abbrev pub await : {T : Type 0} → Server B T → Call B → Ui B X T
  await server call v = (server v.calls call, record v { calls = call ∷ v.calls })

  -- go(page)
  abbrev pub go : Page → Ui B X (Unit {0})
  go p v = (ok tt, record v { target = some p })

  abbrev pub set_editing : Option (Option String) → Ui B X (Unit {0})
  set_editing row v = (ok tt, record v { editing = row })

  abbrev pub set_extra : (X → X) → Ui B X (Unit {0})
  set_extra f v = (ok tt, record v { extra = f v.extra })

-- editing?.id, as the test reads it.
abbrev pub edited_id : Option (Option String) → Option String
edited_id none = none
edited_id (some none) = none
edited_id (some (some i)) = if i == "" then none else some i
