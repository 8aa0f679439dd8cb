-- ===== src/PortForward/Session/Tests.antt =====
-- A forward of a service whose pod goes, and which the cluster then closes.
use kubiq.PortForward.Target.{RemotePort, number, named, Pod, Service}
use kubiq.PortForward.Session.{run}
use kubiq.PortForward.Session.State.{
  error, active, reconnecting, Event, opens, holds, ticks, closes, pod_answer, service_answer,
  pods_answer, moved, new,
}
use kubiq.PortForward.Session.Ends.{reports, stage}
use kubiq.PortForward.Session.History.{asked, error_last, has_error, is_done, run-error_last}
use kubiq.Base.{◌≡◌, refl, true, false, ◌&&◌, not, List, [], ◌∷◌, none, some, String}

-- PortForwardRemotePort.of, on names.
abbrev as_name : String → RemotePort
as_name t = named t

abbrev pod : String → Pod
pod name = record {
  name = name;
  is_deleting = false;
  phase = "Running";
  ports = record { name = some "http"; container_port = some 8080; protocol = none } ∷ [];
}

abbrev web : Service
web = record {
  ports =
      record { name = some "web"; port = 80; protocol = none; target_port = some (named "http") }
      ∷ [];
  selector = ("app", "web") ∷ [];
}

abbrev events : List Event
events =
    opens "f1" 5000 (record { pod_name = "a"; target_port = 8080 })
    ∷ holds
    ∷ ticks
    ∷ pod_answer none
    ∷ service_answer (some web)
    ∷ pods_answer []
    ∷ ticks
    ∷ pod_answer none
    ∷ service_answer (some web)
    ∷ pods_answer (pod "b" ∷ [])
    ∷ moved
    ∷ closes
    ∷ closes
    ∷ []

events_reports :
    reports (run as_name events (new "ns" "web" true (number 80))).1
    ≡ reconnecting ∷ active ∷ error ∷ []
unfolding run reports
events_reports = refl

run-error_last_example :
    (error_last (reports (run as_name events (new "ns" "web" true (number 80))).1) ≡ true)
    × (has_error (reports (run as_name events (new "ns" "web" true (number 80))).1)
        ≡ is_done (stage (run as_name events (new "ns" "web" true (number 80))).0)
          && not (asked as_name events (new "ns" "web" true (number 80))))
run-error_last_example = run-error_last as_name events "ns" "web" true (number 80)
