-- ===== src/Streams/Process/Exits/Tests.antt =====
-- A run of a process whose output comes before its id, and which is cancelled after its exit.
use kubiq.Base.{pos, ◌≡◌, false, List, [], ◌∷◌, Option, none, some, String, if◌then◌else◌}
use kubiq.Streams.Inbox.{fresh}
use kubiq.Streams.Process.{Decoders}
use kubiq.Streams.Process.Exits.{Event, accepts, attaches, cancels, run, exit_count, run-exits_once}

abbrev plain : String → Option String
plain s = some s

abbrev echo : Unit {0} → String → Unit {0} × String
echo d b = (d, b)

abbrev no_rest : Unit {0} → Unit {0} × String
no_rest d = (d, "")

abbrev decoders : Decoders (Unit {0})
decoders = record { output = tt; errors = tt }

abbrev history : List Event
history =
    accepts (record { process_id = "p"; chunk = some "x"; is_error = false; code = none })
    ∷ attaches "p"
    ∷ accepts (record { process_id = "p"; chunk = none; is_error = false; code = some (pos 0) })
    ∷ cancels (pos 1)
    ∷ []

run-exits_once_example :
    exit_count (run plain "" echo no_rest history (fresh decoders)).1
    ≡ (if (run plain "" echo no_rest history (fresh decoders)).0.closed then 1 else 0)
run-exits_once_example = run-exits_once plain "" echo no_rest history decoders
