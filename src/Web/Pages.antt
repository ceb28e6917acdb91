-- ===== src/Web/Pages.antt =====
-- The handlers of Login, DataPage, Tests and Settings of web/admin/src/main.tsx.
mod Tests
pub mod Actions
use Prim.Native.String.{◌++◌ as join}
use bagualu.Base.{
  String, Bool, true, false, Option, none, some, ◌==◌, nat_eq, string_eq, if◌then◌else◌,
}
use bagualu.Web.Api.{Failure}
use bagualu.Web.Ui.{
  Call, View, Ui, Server, success, warning, ◌>>=◌, ◌>>◌, try_catch, finally, set_busy, set_open,
  set_extra, notify, reload, report, await,
}

-- Login: the error that it shows, and whether onLogin was called.
pub record Gate : Type 0 where
  pub error : Option Failure
  pub entered : Bool

pub record Credentials : Type 0 where
  pub username : String
  pub password : String

abbrev pub login_call : String → Call Credentials
login_call password = record {
  method = "POST";
  path = "/auth/login";
  body = some (record { username = "admin"; password = password });
}

pub login_submit : Server Credentials String → String → Ui Credentials Gate (Unit {0})
login_submit server password = do
  set_busy true
  set_extra (λ g. record g { error = none })
  finally
      (try_catch
        (do await server (login_call password); set_extra (λ g. record g { entered = true }))
        (λ e. set_extra (λ g. record g { error = some e })))
      (set_busy false)

abbrev pub create_call : {B : Type 0} → String → B → Call B
create_call endpoint values = record { method = "POST"; path = endpoint; body = some values }

abbrev pub clear_call : {B : Type 0} → Call B
clear_call = record { method = "POST"; path = "/jobs/clear?scope=all&purge=true"; body = none }

abbrev pub test_call : {B : Type 0} → (String → String) → String → String → Call B
test_call encode node_id kind = record {
  method = "POST";
  path = join (join (join "/nodes/" (encode node_id)) "/tests/") kind;
  body = none;
}

module _ {B X T : Type 0} (server : Server B T) where
  -- DataPage
  pub create_submit : String → String → B → Ui B X (Unit {0})
  create_submit endpoint label values =
      try_catch
        (do
          await server (create_call endpoint values)
          notify (success (join label "已创建"))
          set_open false
          reload)
        report

  -- Tests
  pub clear_active_tasks : Ui B X (Unit {0})
  clear_active_tasks = do
    set_busy true
    finally (try_catch (do await server clear_call; notify (success "任务数据已清空"); reload) report)
        (set_busy false)

  pub submit_test : (String → String) → String → String → Ui B X (Unit {0})
  submit_test encode node_id kind = if node_id == "" then notify (warning "请选择一个活动节点") else do
    set_busy true
    finally
        (try_catch
          (do await server (test_call encode node_id kind); notify (success "测试任务已提交"); reload)
          report)
        (set_busy false)

-- Settings. The answer's version may be missing; the call of an upload carries the file.
abbrev or_text : String → Option String → String
or_text d none = d
or_text d (some s) = if s == "" then d else s

abbrev pub installed_text : String → Option String → String
installed_text d version = join (join "Mihomo " (or_text d version)) " 已安装并重新启动"

abbrev pub install_call : {F : Type 0} → Option F → Call F
install_call none = record { method = "POST"; path = "/system/core/install"; body = none }
install_call (some file) = record {
  method = "POST";
  path = "/system/core/install/upload";
  body = some file;
}

module _ {F X : Type 0} (server : Server F (Option String)) where
  pub install_core : Ui F X (Unit {0})
  install_core = do
    set_busy true
    finally
        (try_catch
          (do
            version ← await server (install_call none)
            notify (success (installed_text "已安装" version))
            reload)
          report)
        (set_busy false)

  pub upload_core : F → Ui F X (Unit {0})
  upload_core file = do
    set_busy true
    finally
        (try_catch
          (do
            version ← await server (install_call (some file))
            notify (success (installed_text "文件" version))
            reload)
          report)
        (set_busy false)
