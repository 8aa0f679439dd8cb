-- ===== src/Streams/Pty/Delivery/Tests.antt =====
-- A shell whose prompt comes before its id.
use kubiq.Base.{pos, ◌≢◌, List, [], ◌∷◌, none, some, String, arith, str_eq_iff}
use kubiq.Streams.Pty.{Message, data_message, exit_message}

abbrev plain : String → String
plain s = s

abbrev early : List Message
early = data_message "stdout" (some "p1") (some "$") ∷ []

abbrev late : List Message
late = exit_message (some "p1") (some (pos 1)) ∷ data_message "stderr" (some "p1") none ∷ []

p1≢empty : ◌≢◌ {A = String} "p1" ""
p1≢empty e = ground (arith, str_eq_iff "p1" "")
