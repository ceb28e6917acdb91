-- ===== src/Web/Nodes.antt =====
-- Nodes of web/admin/src/main.tsx: the handlers of its buttons. The rows that it shows are in the
-- child Filter.
mod Tests
pub mod Filter
pub mod Actions
use Prim.Native.String.{◌++◌ as join}
use bagualu.Base.{String, true, false, Option, none, some}
use bagualu.Web.Format.{measurement_kind}
use bagualu.Web.Ui.{
  edited_id, Call, View, Ui, set_editing, Server, success, ◌>>=◌, ◌>>◌, try_catch, finally,
  set_busy, set_open, notify, reload, report, await, reset_fields,
}

-- `encode` is encodeURIComponent.
abbrev pub node_path : (String → String) → String → String
node_path encode i = join "/nodes/" (encode i)

abbrev pub save_call : {B : Type 0} → (String → String) → Option String → B → Call B
save_call encode none values = record { method = "POST"; path = "/nodes"; body = some values }
save_call encode (some i) values = record {
  method = "PUT";
  path = node_path encode i;
  body = some values;
}

abbrev pub save_text : Option String → String
save_text none = "手动节点已创建"
save_text (some i) = "手动节点已更新"

abbrev pub test_path : (String → String) → String → String → String
test_path encode i kind = join (join (node_path encode i) "/tests/") kind

module _ {B X : Type 0} where
  pub edit : Option (Option String) → Ui B X (Unit {0})
  edit node = do set_editing node; reset_fields; set_open true

module _ {B X T : Type 0} (encode : String → String) (server : Server B T) where
  pub submit : B → Ui B X (Unit {0})
  submit values v =
      (do
        set_busy true
        finally
            (try_catch
              (do
                await server (save_call encode (edited_id v.editing) values)
                notify (success (save_text (edited_id v.editing)))
                set_open false
                reset_fields
                reload)
              report)
            (set_busy false))
        v

  -- onOk of the confirmation
  pub remove : String → Ui B X (Unit {0})
  remove i =
      try_catch
        (do
          await server (record { method = "DELETE"; path = node_path encode i; body = none })
          notify (success "节点已删除")
          reload)
        report

  pub run_test : String → String → Ui B X (Unit {0})
  run_test i kind =
      try_catch
        (do
          await server (record { method = "POST"; path = test_path encode i kind; body = none })
          notify (success (join (measurement_kind kind) "任务已提交")))
        report
