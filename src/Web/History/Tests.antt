-- ===== src/Web/History/Tests.antt =====
-- A failed measurement.
use bagualu.Base.{◌≡◌, refl, true, false, none, some}
use bagualu.Web.Number.{whole, undefined}
use bagualu.Web.History.{MeasurementRow, failure_reason, result_tag, history_path}

abbrev failed : MeasurementRow
failed = record {
  id = "m1";
  kind = "ping";
  success = false;
  latency_ms = undefined;
  speed_bytes_per_sec = undefined;
  bytes = undefined;
  proxy_protocol = "vless";
  test_url = "";
  exit_ip = "";
  baseline_target = "";
  speed_source = "";
  load_status = "";
  background_upload_bps = whole 0;
  background_download_bps = whole 0;
  wan_download_before = 9;
  wan_download_after = 3;
  wan_upload_before = 0;
  wan_upload_after = 0;
  wan_download_capacity_bps = whole 0;
  wan_upload_capacity_bps = whole 0;
  load_sample_duration_ms = 0;
  effective_download_duration_ms = whole 0;
  core_evidence = none;
  error_code = "timeout";
  error_detail = "";
  failure_stage = "dial";
  infrastructure = true;
  created_at = undefined;
}

reason : failure_reason failed ≡ "timeout"
unfolding failure_reason
reason = refl

tag : result_tag failed ≡ record { color = "warning"; label = "基础设施" }
unfolding result_tag
tag = refl

no_node : history_path (λ s. s) (some "") ≡ none
unfolding history_path
no_node = refl
