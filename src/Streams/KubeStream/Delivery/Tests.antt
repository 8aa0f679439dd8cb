-- ===== src/Streams/KubeStream/Delivery/Tests.antt =====
-- A run of a stream whose first message comes before its id.
use kubiq.Base.{◌≡◌, ◌≢◌, refl, ◌++◌, List, [], ◌∷◌, none, some, String, arith, str_eq_iff}
use kubiq.Streams.Inbox.Delivery.{session}
use kubiq.Streams.KubeStream.{Message, eof, dispatch, id_of, on_chunk, on_closed}
use kubiq.Streams.KubeStream.Delivery.{transcript, session-transcript}

abbrev early : List Message
early = record { stream_id = "s1"; chunk = some "x"; error = none; status = none } ∷ []

abbrev late : List Message
late =
    record { stream_id = "s2"; chunk = some "y"; error = none; status = none }
    ∷ record { stream_id = "s1"; chunk = none; error = none; status = some eof }
    ∷ record { stream_id = "s1"; chunk = some "z"; error = none; status = none }
    ∷ []

s1_told : transcript "s1" (early ++ late) ≡ on_chunk "x" ∷ on_closed eof ∷ []
unfolding transcript
s1_told = refl

s1≢empty : ◌≢◌ {A = String} "s1" ""
s1≢empty e = ground (arith, str_eq_iff "s1" "")

session-transcript_example :
    (session id_of dispatch 3 "s1" early late tt).1 ≡ transcript "s1" (early ++ late)
session-transcript_example = session-transcript "s1" early late s1≢empty
