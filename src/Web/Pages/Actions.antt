-- ===== src/Web/Pages/Actions.antt =====
-- What the handlers of Login, DataPage, Tests and Settings leave behind.
use bagualu.Base.{
  ◌+◌, String, ◌≡◌, true, false, Option, none, some, ◌∷◌, arith, ◌==◌, nat_eq, string_eq,
  if◌then◌else◌,
}
use Prim.Native.String.{◌++◌ as join}
use bagualu.Web.Api.{Result, ok, err}
use bagualu.Web.Ui.{View, Server, warning, try_catch, finally}
use bagualu.Web.Ui.Saves.{finished}
use bagualu.Web.Pages.{
  Gate, Credentials, login_submit, login_call, create_submit, create_call, clear_active_tasks,
  clear_call, submit_test, test_call, install_core, upload_core, install_call, installed_text,
}

abbrev pub gate_after : Result String → Gate
gate_after (ok token) = record { error = none; entered = true }
gate_after (err e) = record { error = some e; entered = false }

-- A login that is not yet through sends one request; the console is entered exactly if it
-- succeeds, and otherwise the failure is shown in place of any earlier one. The button does not
-- stay busy.
pub login_submit-gate :
    (server : Server Credentials String) (password : String) (v : View Credentials Gate)
    → v.extra.entered ≡ false
    → login_submit server password v ≡ (
      ok tt,
      record v {
        busy = false;
        calls = login_call password ∷ v.calls;
        extra = gate_after (server v.calls (login_call password));
      },
    )
unfolding login_submit try_catch finally
login_submit-gate server password v h = ground arith

module _ {B X T : Type 0} (server : Server B T) (v : View B X) where
  -- Creating a group or a key closes the dialog and reloads on success and keeps it on failure;
  -- clearing the tasks reloads on success; neither leaves a button busy that was not.
  create_submit-finished :
      (endpoint label : String) (values : B)
      → (create_submit server endpoint label values v ≡ (
        ok tt,
        finished
            (λ _. join label "已创建")
            (λ u. record u { opened = false; reloads = u.reloads + 1 })
            (create_call endpoint values)
            (server v.calls (create_call endpoint values))
            v,
      ))
        × (clear_active_tasks server v ≡ (
          ok tt,
          finished
              (λ _. "任务数据已清空")
              (λ u. record u { reloads = u.reloads + 1 })
              clear_call
              (server v.calls clear_call)
              (record v { busy = false }),
        ))
  unfolding create_submit clear_active_tasks try_catch finally
  create_submit-finished endpoint label values = (ground arith, ground arith)

  abbrev pub submitted : (String → String) → String → String → View B X
  submitted encode node_id kind =
      if node_id == ""
      then record v { notices = warning "请选择一个活动节点" ∷ v.notices }
      else finished (λ _. "测试任务已提交") (λ u. record u { reloads = u.reloads + 1 })
          (test_call encode node_id kind) (server v.calls (test_call encode node_id kind))
          (record v { busy = false })

  -- Without a chosen node a test sends nothing and only warns; with one it sends one request to
  -- that node's path, and reloads the jobs exactly on success.
  pub submit_test-submitted :
      (encode : String → String) (node_id kind : String)
      → submit_test server encode node_id kind v ≡ (ok tt, submitted encode node_id kind)
  unfolding submit_test try_catch finally
  submit_test-submitted encode node_id kind = ground arith

module _ {F X : Type 0} (server : Server F (Option String)) (v : View F X) where
  -- Installing the kernel, by download or from a file, sends one request, names the answered
  -- version and reloads the state on success, and never leaves the buttons busy.
  pub install-finished :
      (file : F)
      → (install_core server v ≡ (
        ok tt,
        finished
            (installed_text "已安装")
            (λ u. record u { reloads = u.reloads + 1 })
            (install_call none)
            (server v.calls (install_call none))
            (record v { busy = false }),
      ))
        × (upload_core server file v ≡ (
          ok tt,
          finished
              (installed_text "文件")
              (λ u. record u { reloads = u.reloads + 1 })
              (install_call (some file))
              (server v.calls (install_call (some file)))
              (record v { busy = false }),
        ))
  unfolding install_core upload_core try_catch finally
  install-finished file = (ground arith, ground arith)
