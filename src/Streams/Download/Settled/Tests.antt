-- ===== src/Streams/Download/Settled/Tests.antt =====
-- A download that is done before its id is known.
use kubiq.Base.{◌≡◌, true, false, List, [], ◌∷◌, none, some}
use kubiq.Streams.Inbox.{fresh}
use kubiq.Streams.Download.Settled.{
  Event, accepts, attaches, cancel_fails, run, settles, run-settles_finished,
}

abbrev history : List Event
history =
    accepts (record {
      download_id = "d";
      progress = none;
      done = some (record {
        success = true;
        cancelled = false;
        path = "/tmp/x";
        size = 3;
        sha256 = "ab";
        error = "";
      });
    })
    ∷ attaches "d"
    ∷ cancel_fails
    ∷ []

run-settles_finished_example :
    settles (run history (fresh tt)).1 ≡ (run history (fresh tt)).0.closed
run-settles_finished_example = run-settles_finished history
