-- ===== src/Web/History.antt =====
-- NodeHistoryDrawer of web/admin/src/main.tsx: the measurements of a node and their cells.
mod Tests
pub mod Cells
use Prim.Native.String.{◌++◌ as join}
use bagualu.Base.{
  ℕ, suc, ◌-◌, ◌^◌, String, Bool, Option, none, some, List, [], ◌∷◌, leb, ◌==◌, nat_eq, string_eq,
  if◌then◌else◌,
}
use bagualu.Web.Number.{
  Number, nan, pos_inf, neg_inf, fin, neg, whole, is_positive, round, round_below, Value, num,
  to_number, truthy,
}
use bagualu.Web.Format.{Quantity, Shown, text, format_rate, format_measurement_bytes}

-- core_evidence, of which the drawer shows these
pub record CoreEvidence : Type 0 where
  pub pid : String
  pub node_name : String
  pub connection_id : String

-- A row of /nodes/…/measurements. A text that is missing is empty, since both are tested by ||;
-- the counters are whole numbers below 2 ^ 53, and a missing one is 0.
pub record MeasurementRow : Type 0 where
  pub id : String
  pub kind : String
  pub success : Bool
  pub latency_ms : Value
  pub speed_bytes_per_sec : Value
  pub bytes : Value
  pub proxy_protocol : String
  pub test_url : String
  pub exit_ip : String
  pub baseline_target : String
  pub speed_source : String
  pub load_status : String
  pub background_upload_bps : Number
  pub background_download_bps : Number
  pub wan_download_before : ℕ
  pub wan_download_after : ℕ
  pub wan_upload_before : ℕ
  pub wan_upload_after : ℕ
  pub wan_download_capacity_bps : Number
  pub wan_upload_capacity_bps : Number
  pub load_sample_duration_ms : ℕ
  pub effective_download_duration_ms : Number
  pub core_evidence : Option CoreEvidence
  pub error_code : String
  pub error_detail : String
  pub failure_stage : String
  pub infrastructure : Bool
  pub created_at : Value

-- value || other
infixr 30 ◌or◌
abbrev pub ◌or◌ : String → String → String
a or b = if a == "" then b else a

-- node?.id ? `/nodes/${encodeURIComponent(node.id)}/measurements?limit=50` : null
path_of : (String → String) → String → Option String
path_of encode i =
    if i == "" then none else some (join (join "/nodes/" (encode i)) "/measurements?limit=50")

pub history_path : (String → String) → Option String → Option String
unfolding path_of
history_path encode none = none
history_path encode (some i) = path_of encode i

-- result.data.measurements || []
pub measurement_rows {ℓ} : {A : Type ℓ} → Option (List A) → List A
measurement_rows none = []
measurement_rows (some rows) = rows

-- formatMeasurementTime; `locale_time` is new Date of a text and toLocaleString, or `none` for NaN.
shown_time : Option String → String
shown_time none = "—"
shown_time (some s) = s

pub format_measurement_time : (String → Option String) → String → String
unfolding shown_time
format_measurement_time locale_time value = shown_time (locale_time value)

pub record Tag : Type 0 where
  pub color : String
  pub label : String

-- The columns 结果 and 失败原因.
pub result_tag : MeasurementRow → Tag
result_tag row = record {
  color = if row.infrastructure then "warning" else if row.success then "success" else "error";
  label = if row.infrastructure then "基础设施" else if row.success then "成功" else "失败";
}

pub failure_reason : MeasurementRow → String
failure_reason row =
    if row.success then "—" else row.error_detail or row.error_code or row.failure_stage or "未知原因"

-- A cell: one text, or the parts of a template string.
pub data Cell : Type 0 where
  plain : String → Cell
  rate : Quantity → Cell
  rates : Quantity → Quantity → Cell
  volumes : ℕ → Shown → Shown → Cell
  millis : Shown → Cell
  evidence : String → String → String → Cell

pub background : Number → Cell
background value = if truthy (num value) then rate (format_rate value) else plain "—"

pub capacity_cell : MeasurementRow → Cell
capacity_cell row =
    if truthy (num row.wan_download_capacity_bps)
    then rates (format_rate row.wan_download_capacity_bps) (format_rate row.wan_upload_capacity_bps)
    else plain "容量未知"

-- after - before, which is below 0 where a counter was reset
pub grown : ℕ → ℕ → Number
grown before after = if leb before after then whole (after - before) else neg (before - after - 1) 0

module _ (parse : String → Number) where
  pub wan_sample : MeasurementRow → Cell
  unfolding grown
  wan_sample row =
      if row.load_sample_duration_ms == 0
      then plain "—"
      else volumes row.load_sample_duration_ms
          (format_measurement_bytes parse
            (num (grown row.wan_download_before row.wan_download_after)))
          (format_measurement_bytes parse (num (grown row.wan_upload_before row.wan_upload_after)))

  -- Number(value) > 0 ? formatRate(Number(value)) : "—"
  pub speed_cell : MeasurementRow → Cell
  speed_cell row =
      let speed = to_number parse row.speed_bytes_per_sec in
      if is_positive speed then rate (format_rate speed) else plain "—"

-- `${Math.round(value)} ms` of a value that is not 0
duration_of : Number → Cell
duration_of nan = plain "—"
duration_of (fin m k) = if m == 0 then plain "—" else millis (Shown.whole (round m (2 ^ k)))
duration_of (neg m k) = millis (Shown.minus (round_below (suc m) (2 ^ k)))
duration_of pos_inf = millis (text "Infinity")
duration_of neg_inf = millis (text "-Infinity")

pub download_duration : MeasurementRow → Cell
unfolding duration_of
download_duration row = duration_of row.effective_download_duration_ms

evidence_of : Option CoreEvidence → Cell
evidence_of none = plain "—"
evidence_of (some e) =
    if e.node_name == ""
    then plain "—"
    else evidence e.node_name (e.pid or "—") (e.connection_id or "—")

pub core_cell : MeasurementRow → Cell
unfolding evidence_of
core_cell row = evidence_of row.core_evidence

-- The items of the expanded row and the columns that are a text or a dash, by their label.
pub text_items : MeasurementRow → List (String × String)
text_items row =
    ("错误码", row.error_code or "—")
    ∷ ("失败阶段", row.failure_stage or "—")
    ∷ ("错误详情", row.error_detail or "—")
    ∷ ("测试地址", row.test_url or "—")
    ∷ ("测速源", row.speed_source or "—")
    ∷ ("外网基线", row.baseline_target or "—")
    ∷ ("负载状态", row.load_status or "—")
    ∷ ("出口 IP", row.exit_ip or "—")
    ∷ []
