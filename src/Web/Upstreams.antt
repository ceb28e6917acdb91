-- ===== src/Web/Upstreams.antt =====
-- Upstreams of web/admin/src/main.tsx, its handlers.
mod Tests
pub mod Actions
use Prim.Native.String.{◌++◌ as join}
use bagualu.Base.{String, true, false, Option, none, some}
use bagualu.Web.App.{Page}
use bagualu.Web.Ui.{
  edited_id, Call, View, Ui, go, set_editing, Server, success, ◌>>=◌, ◌>>◌, try_catch, finally,
  set_busy, set_open, notify, reload, report, await,
}

abbrev save_call : {B : Type 0} → Option String → B → Call B
save_call none values = record { method = "POST"; path = "/upstreams"; body = some values }
save_call (some i) values = record {
  method = "PUT";
  path = join "/upstreams/" i;
  body = some values;
}

abbrev save_text : {A : Type 0} → Option A → String
save_text none = "上游已创建"
save_text (some row) = "上游已更新"

module _ {B X : Type 0} where
  -- the buttons 新建上游 (without a row) and 编辑
  pub edit : Option (Option String) → Ui B X (Unit {0})
  edit row = do set_editing row; set_open true

module _ {B X T : Type 0} (server : Server B T) where
  pub submit : B → Ui B X (Unit {0})
  submit values v =
      (do
        set_busy true
        finally
            (try_catch
              (do
                await server (save_call (edited_id v.editing) values)
                notify (success (save_text v.editing))
                set_open false
                reload)
              report)
            (set_busy false))
        v

  -- onOk of the confirmation
  pub remove : String → Ui B X (Unit {0})
  remove i =
      try_catch
        (do
          await server (record { method = "DELETE"; path = join "/upstreams/" i; body = none })
          notify (success "上游已删除")
          reload)
        report

  -- the button 刷新订阅
  pub refresh : String → Ui B X (Unit {0})
  refresh i =
      try_catch
        (do
          await server (record {
            method = "POST";
            path = join (join "/upstreams/" i) "/refresh";
            body = none;
          })
          notify (success "已提交刷新任务"))
        report

  -- the button 订阅测速; `started` is the text made of the answer's counts
  pub test_all : (T → String) → String → Ui B X (Unit {0})
  test_all started i =
      try_catch
        (do
          value ← await server (record {
            method = "POST";
            path = join (join "/upstreams/" i) "/tests/throughput";
            body = none;
          })
          notify (success (started value))
          go Page.tests)
        report
