-- ===== src/Web/Upstreams/Actions.antt =====
-- What the handlers of Upstreams leave behind.
use bagualu.Base.{◌+◌, String, ◌≡◌, true, false, Option, none, some, arith}
use Prim.Native.String.{◌++◌ as join}
use bagualu.Web.Api.{ok}
use bagualu.Web.Ui.{View, Server, Call, try_catch, finally, edited_id}
use bagualu.Web.Ui.Saves.{finished}
use bagualu.Web.Upstreams.{edit, submit, remove, refresh, save_call, save_text, test_all, Page}

abbrev pub call_of : {B : Type 0} → String → String → Call B
call_of method path = record { method = method; path = path; body = none }

module _ {B X T : Type 0} (server : Server B T) (v : View B X) where
  -- Opening the dialog and saving sends one request: a PUT to the row that was opened, or a POST
  -- for a new row. A success closes the dialog and reloads; a failure leaves it open; neither
  -- leaves the button busy.
  pub submit-edit :
      (row : Option (Option String)) (values : B)
      → submit server values (edit row v).1 ≡ (
        ok tt,
        finished
            (λ _. save_text row)
            (λ u. record u { opened = false; reloads = u.reloads + 1 })
            (save_call (edited_id row) values)
            (server v.calls (save_call (edited_id row) values))
            (record v { busy = false; opened = true; editing = row }),
      )
  unfolding edit submit try_catch finally
  submit-edit row values = ground arith

  -- Deleting, refreshing and testing an upstream send one request each. Only a deletion reloads the
  -- table, only a test goes to the page of tests, and a failure does neither.
  pub actions-finished :
      (i : String) (started : T → String)
      → (remove server i v ≡ (
        ok tt,
        finished
            (λ _. "上游已删除")
            (λ u. record u { reloads = u.reloads + 1 })
            (call_of "DELETE" (join "/upstreams/" i))
            (server v.calls (call_of "DELETE" (join "/upstreams/" i)))
            v,
      ))
        × (refresh server i v ≡ (
          ok tt,
          finished
              (λ _. "已提交刷新任务")
              (λ u. u)
              (call_of "POST" (join (join "/upstreams/" i) "/refresh"))
              (server v.calls (call_of "POST" (join (join "/upstreams/" i) "/refresh")))
              v,
        ))
        × (test_all server started i v ≡ (
          ok tt,
          finished started
              (λ u. record u { target = some Page.tests })
              (call_of "POST" (join (join "/upstreams/" i) "/tests/throughput"))
              (server v.calls (call_of "POST" (join (join "/upstreams/" i) "/tests/throughput")))
              v,
        ))
  unfolding remove refresh test_all try_catch
  actions-finished i started = (ground arith, ground arith, ground arith)
