-- ===== src/Circuit.antt =====
-- EndpointCircuit of internal/application/endpoint_circuit.go: which nodes of an endpoint that
-- does not answer are tested. Times are in nanoseconds; a nil circuit, which admits every node and
-- records nothing, is not a state of the model.
mod Tests
pub mod History
pub mod Probe
use bagualu.Base.{
  ℕ, ◌+◌, ◌*◌, String, Bool, true, false, not, ◌||◌, Option, none, some, ltb, leb, ◌==◌, nat_eq,
  string_eq, if◌then◌else◌,
}

-- domain.Node and domain.MeasurementOutcome, as far as the circuit reads them.
pub record Node : Type 0 where
  pub id : String
  pub endpoint_ip : String

pub record Outcome : Type 0 where
  pub success : Bool
  pub infrastructure : Bool
  pub error_code : String

pub record Entry : Type 0 where
  pub failures : ℕ
  -- openUntil, `none` where it is the zero time
  pub open_until : Option ℕ
  pub representative : String
  pub probe_in_flight : Bool

-- The map of entries, as a function.
pub record EndpointCircuit : Type 0 where
  pub entries : String → Option Entry
  pub failure_limit : ℕ
  pub cooldown : ℕ

-- failureLimit and cooldown are signed in the source, and below their minimum they are replaced.
pub new_endpoint_circuit : ℕ → ℕ → EndpointCircuit
new_endpoint_circuit limit cooldown = record {
  entries = λ ip. none;
  failure_limit = if ltb limit 2 then 2 else limit;
  cooldown = if leb cooldown 0 then 5 * 60 * 1000000000 else cooldown;
}

abbrev pub put : String → Entry → (String → Option Entry) → String → Option Entry
put ip entry m ip' = if ip' == ip then some entry else m ip'

-- What Before answers: nil, or an EndpointCircuitError with its RetryAt.
pub data Verdict : Type 0 where
  admitted : Verdict
  retry_at : ℕ → Verdict

-- Before on an entry whose openUntil is set.
probe : ℕ → Node → ℕ → Entry → EndpointCircuit → Verdict × EndpointCircuit
probe now node until entry c =
    if ltb now until
    then (retry_at until, c)
    else if entry.probe_in_flight || not (node.id == entry.representative)
    then (retry_at now, c)
    else (
      admitted,
      record c {
        entries = put node.endpoint_ip (record entry { probe_in_flight = true }) c.entries;
      },
    )

on_open : ℕ → Node → Option ℕ → Entry → EndpointCircuit → Verdict × EndpointCircuit
unfolding probe
on_open now node none entry c = (admitted, c)
on_open now node (some until) entry c = probe now node until entry c

on_entry : ℕ → Node → Option Entry → EndpointCircuit → Verdict × EndpointCircuit
unfolding on_open
on_entry now node none c = (admitted, c)
on_entry now node (some entry) c = on_open now node entry.open_until entry c

pub before : ℕ → Node → EndpointCircuit → Verdict × EndpointCircuit
unfolding on_entry
before now node c =
    if node.endpoint_ip == ""
    then (admitted, c)
    else on_entry now node (c.entries node.endpoint_ip) c

abbrev pub zero_entry : Entry
zero_entry = record {
  failures = 0;
  open_until = none;
  representative = "";
  probe_in_flight = false;
}

abbrev pub entry_of : Option Entry → Entry
entry_of none = zero_entry
entry_of (some entry) = entry

-- domain.ErrCodeNetworkUnreachable and domain.ErrCodeHostUnreachable
abbrev pub is_unreachable : String → Bool
is_unreachable code = (code == "network_unreachable") || (code == "host_unreachable")

-- Record on the entry of the node's endpoint: its answer, and the entry that is left.
pub record_entry : ℕ → ℕ → ℕ → String → Outcome → Entry → Bool × Entry
record_entry limit cooldown now i outcome entry =
    if outcome.success
    then (false, record entry { failures = 0; open_until = none; probe_in_flight = false })
    else if not (is_unreachable outcome.error_code)
    then (false, entry)
    else if ltb (entry.failures + 1) limit
    then (false, record entry { failures = entry.failures + 1 })
    else (
      true,
      record {
        failures = entry.failures + 1;
        open_until = some (now + cooldown);
        representative = i;
        probe_in_flight = false;
      },
    )

pub record_outcome : ℕ → Node → Outcome → EndpointCircuit → Bool × EndpointCircuit
unfolding record_entry
record_outcome now node outcome c =
    let (opened, entry) =
      record_entry c.failure_limit c.cooldown now node.id outcome
        (entry_of (c.entries node.endpoint_ip)) in
    if (node.endpoint_ip == "") || outcome.infrastructure
    then (false, c)
    else (opened, record c { entries = put node.endpoint_ip entry c.entries })
