-- ===== src/Terminal/Scrollback.antt =====
-- frontend/src/application/services/terminal/models/TerminalBuffer.ts: the bytes that a terminal shows
-- again when it is opened anew. Bytes are numbers, and TerminalBytes.concat is `concat`.
pub mod Suffix
mod Tests
use kubiq.Base.{ℕ, ◌+◌, ◌-◌, List, [], ◌∷◌, ◌++◌, ltb, ◌==◌, if◌then◌else◌, length}

pub record Scrollback : Type 0 where
  pub limit : ℕ
  pub chunks : List (List ℕ)
  pub bytes : ℕ

abbrev pub scrollback_bytes : ℕ
scrollback_bytes = 524288

abbrev pub new : ℕ → Scrollback
new limit = record { limit = limit; chunks = []; bytes = 0 }

unfoldable pub concat : List (List ℕ) → List ℕ
concat [] = []
concat (c ∷ cs) = c ++ concat cs

-- The loop of `append`: whole chunks from the front, but never the last one.
pub shift_over : ℕ → List (List ℕ) → ℕ → List (List ℕ) × ℕ
shift_over limit [] bytes = ([], bytes)
shift_over limit (c ∷ []) bytes = (c ∷ [], bytes)
shift_over limit (c ∷ d ∷ cs) bytes =
    let shifted = shift_over limit (d ∷ cs) (bytes - length c) in
    if ltb limit bytes then shifted else (c ∷ d ∷ cs, bytes)

pub append : List ℕ → Scrollback → Scrollback
unfolding shift_over
append chunk b =
    let (chunks, bytes) = shift_over b.limit (b.chunks ++ chunk ∷ []) (b.bytes + length chunk) in
    if length chunk == 0 then b else record b { chunks = chunks; bytes = bytes }

pub snapshot : Scrollback → List ℕ
unfolding concat
snapshot b = concat b.chunks

pub clear : Scrollback → Scrollback
clear b = record b { chunks = []; bytes = 0 }
