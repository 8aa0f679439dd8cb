-- ===== src/Logs/Session/Tests.antt =====
-- Runs of a log session.
use kubiq.Base.{◌≡◌, refl, true, List, [], some, ◌∷◌, ◌++◌, Text, codes}
use kubiq.Logs.Buffer.{new as new_buffer, append}
use kubiq.Logs.Buffer.Chunks.{new-IsSound, content}
use kubiq.Logs.Session.{eof, Session, new, stop_subscription, forget}
use kubiq.Logs.Session.Race.{Event, attaches, chunks, closes, holds, stops, disposes, run, run_over}
use kubiq.Logs.Session.Chunks.{chunk_all, concat, chunk_all-concat}

abbrev sample : Session
sample = record (new (new_buffer 2 100) true) { held = true }

abbrev following : Session
following = record sample { subscription = some 3 }

abbrev history : List Event
history = chunks (codes "a") ∷ attaches 4 ∷ holds ∷ closes eof ∷ disposes ∷ []

run_over_example :
    (run (stops ∷ history) following).1
    ≡ forget ∷ stop_subscription 3 ∷ stop_subscription 4 ∷ forget ∷ []
run_over_example = run_over history following

abbrev log : List Text
log = (codes "a" ++ 13 ∷ []) ∷ (10 ∷ codes "b" ++ 10 ∷ []) ∷ codes "c" ∷ []

chunk_all-concat_example :
    content (chunk_all log sample).buffer ≡ content (append (new_buffer 2 100) (concat log)).0
chunk_all-concat_example = chunk_all-concat log sample refl (new-IsSound 2 100)
