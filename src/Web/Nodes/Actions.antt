-- ===== src/Web/Nodes/Actions.antt =====
-- What the handlers of Nodes leave behind.
use bagualu.Base.{◌+◌, String, ◌≡◌, true, false, Option, none, arith}
use Prim.Native.String.{◌++◌ as join}
use bagualu.Web.Api.{ok}
use bagualu.Web.Format.{measurement_kind}
use bagualu.Web.Ui.{View, Server, Call, try_catch, finally, edited_id}
use bagualu.Web.Ui.Saves.{finished}
use bagualu.Web.Nodes.{edit, submit, remove, run_test, save_call, save_text, node_path, test_path}

abbrev pub call_of : {B : Type 0} → String → String → Call B
call_of method path = record { method = method; path = path; body = none }

module _ {B X T : Type 0} (encode : String → String) (server : Server B T) (v : View B X) where
  -- Opening the dialog clears the form, and saving sends one request: a PUT to the node that was
  -- opened, under its encoded id, or a POST for a new one. A success closes the dialog, clears the
  -- form and reloads; a failure keeps the dialog and the form; neither leaves the button busy.
  pub submit-edit_node :
      (row : Option (Option String)) (values : B)
      → submit encode server values (edit row v).1 ≡ (
        ok tt,
        finished
            (λ _. save_text (edited_id row))
            (λ u. record u { opened = false; reloads = u.reloads + 1; resets = u.resets + 1 })
            (save_call encode (edited_id row) values)
            (server v.calls (save_call encode (edited_id row) values))
            (record v { busy = false; opened = true; editing = row; resets = v.resets + 1 }),
      )
  unfolding edit submit try_catch finally
  submit-edit_node row values = ground arith

  -- Deleting a node and starting a test of any kind send one request each, to the node's own path;
  -- a deletion alone reloads the table, and only if it succeeded.
  pub node_actions-finished :
      (i kind : String)
      → (remove encode server i v ≡ (
        ok tt,
        finished
            (λ _. "节点已删除")
            (λ u. record u { reloads = u.reloads + 1 })
            (call_of "DELETE" (node_path encode i))
            (server v.calls (call_of "DELETE" (node_path encode i)))
            v,
      ))
        × (run_test encode server i kind v ≡ (
          ok tt,
          finished
              (λ _. join (measurement_kind kind) "任务已提交")
              (λ u. u)
              (call_of "POST" (test_path encode i kind))
              (server v.calls (call_of "POST" (test_path encode i kind)))
              v,
        ))
  unfolding remove run_test try_catch
  node_actions-finished i kind = (ground arith, ground arith)
