-- ===== src/Streams/Forward/Delivery/Tests.antt =====
-- A port forward whose error comes before its id.
use kubiq.Base.{◌≢◌, List, [], ◌∷◌, none, some, String, arith, str_eq_iff}
use kubiq.Streams.Forward.{Message, error_message, close_message}

abbrev early : List Message
early = error_message (some "f1") (some "refused") ∷ []

abbrev late : List Message
late = error_message (some "f2") none ∷ close_message (some "f1") none ∷ []

f1≢empty : ◌≢◌ {A = String} "f1" ""
f1≢empty e = ground (arith, str_eq_iff "f1" "")
