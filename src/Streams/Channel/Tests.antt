-- ===== src/Streams/Channel/Tests.antt =====
-- A run of a channel whose first frame comes before its id.
use kubiq.Base.{◌≢◌, List, [], ◌∷◌, none, some, String, arith, str_eq_iff}
use kubiq.Streams.Channel.{Message, eof}

abbrev plain : String → String
plain s = s

abbrev early : List Message
early =
    record {
      channel_id = "c1";
      stream = none;
      payload = some "x";
      error = none;
      status = none;
      reason = none;
    }
    ∷ []

abbrev late : List Message
late =
    record {
      channel_id = "c1";
      stream = none;
      payload = none;
      error = none;
      status = some eof;
      reason = some "done";
    }
    ∷ []

c1≢empty : ◌≢◌ {A = String} "c1" ""
c1≢empty e = ground (arith, str_eq_iff "c1" "")
