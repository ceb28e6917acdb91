-- ===== src/Circuit/Tests.antt =====
-- An endpoint that fails twice, with the limit 2 and a cooldown of 300.
use bagualu.Base.{◌≤◌, String, ◌≡◌, refl, ◌≢◌, false, some, List, [], ◌∷◌}
use bagualu.Circuit.{
  Outcome, Entry, EndpointCircuit, new_endpoint_circuit, before, record_outcome, entry_of,
}
use bagualu.Circuit.History.{Event, asked, recorded, at, after, IsTold, after-IsTold}
use bagualu.Circuit.Probe.{admissions, admissions-le, IsOpen}

abbrev down : Outcome
down = record { success = false; infrastructure = false; error_code = "host_unreachable" }

abbrev slow : Outcome
slow = record { success = false; infrastructure = false; error_code = "measurement_failed" }

abbrev ip : String
ip = "10.0.0.1"

abbrev failing : List Event
failing = recorded 20 "n2" down ∷ asked 15 "n2" ∷ recorded 10 "n1" down ∷ []

abbrev circuit : EndpointCircuit
circuit = new_endpoint_circuit 2 300

named : ip ≢ ""
named = λ e. cc

after-IsTold_example : IsTold 2 300 failing (entry_of ((after circuit ip failing).entries ip))
unfolding new_endpoint_circuit
after-IsTold_example = after-IsTold 2 300 ip failing named

abbrev failed_once : EndpointCircuit
failed_once = (record_outcome 10 (at ip "n1") down circuit).1

abbrev opened : EndpointCircuit
opened = after circuit ip failing

abbrev entry : Entry
entry = record {
  failures = 2;
  open_until = some 320;
  representative = "n2";
  probe_in_flight = false;
}

opened-IsOpen : IsOpen ip false opened
unfolding after record_outcome before new_endpoint_circuit
opened-IsOpen = record { until = 320; entry = entry; known = refl; timed = refl; probing = refl }

-- A probe that fails for another reason leaves the endpoint refused at any later time.
probe_lost :
    admissions ip (asked 400 "n2" ∷ recorded 401 "n2" slow ∷ asked 900000 "n2" ∷ []) opened ≡ 1
unfolding admissions after record_outcome before new_endpoint_circuit
probe_lost = refl

admissions-le_example :
    admissions ip (asked 400 "n2" ∷ recorded 401 "n2" slow ∷ asked 900000 "n2" ∷ []) opened ≤ 1
admissions-le_example =
    admissions-le ip (asked 400 "n2" ∷ recorded 401 "n2" slow ∷ asked 900000 "n2" ∷ []) false opened
      named opened-IsOpen (tt, ((refl, refl), (tt, tt)))
