-- ===== src/Logs/Buffer.antt =====
-- frontend/src/application/services/podLogs/models/PodLogBuffer.ts: the bounded buffer of log lines.
pub mod Cut
pub mod Newest
pub mod Chunks
mod Tests
use kubiq.Base.{
  ℕ, zero, suc, ◌+◌, ◌-◌, ◌≡◌, refl, Bool, true, false, List, [], ◌∷◌, ◌++◌, map, ltb, ◌==◌,
  if◌then◌else◌, Text, length, drop, codes,
}

pub record Buffer : Type 0 where
  pub line_cap : ℕ
  pub char_cap : ℕ
  pub buffered : List Text
  pub partial : Text
  pub chars : ℕ
  pub dropped : ℕ
  pub revision : ℕ

abbrev pub new : ℕ → ℕ → Buffer
new line_cap char_cap = record {
  line_cap = line_cap;
  char_cap = char_cap;
  buffered = [];
  partial = [];
  chars = 0;
  dropped = 0;
  revision = 0;
}

-- A code unit in front of the first part.
abbrev pub prepend : ℕ → List Text × Text → List Text × Text
prepend c ([], p) = ([], c ∷ p)
prepend c (l ∷ ls, p) = ((c ∷ l) ∷ ls, p)

-- `split('\n')` with its last part popped: the complete lines, and what follows them.
pub cut : Text → List Text × Text
cut [] = ([], [])
cut (c ∷ s) = let (ls, p) = cut s in if c == 10 then ([] ∷ ls, p) else prepend c (ls, p)

-- `line.endsWith('\r') ? line.slice(0, -1) : line`
pub strip_return : Text → Text
strip_return [] = []
strip_return (c ∷ []) = if c == 13 then [] else c ∷ []
strip_return (c ∷ d ∷ s) = c ∷ strip_return (d ∷ s)

-- The characters of the lines with one more for each line's end.
pub total : List Text → ℕ
total [] = 0
total (l ∷ ls) = length l + 1 + total ls

-- `chars -= buffered[index].length + 1` for the first `n` lines.
pub minus_lines : ℕ → List Text → ℕ → ℕ
minus_lines zero ls chars = chars
minus_lines (suc n) [] chars = chars
minus_lines (suc n) (l ∷ ls) chars = minus_lines n ls (chars - (length l + 1))

-- The second loop of `trim`, over the lines from `drop` on: the count to drop, and `chars`.
pub over_cap : ℕ → List Text → ℕ → ℕ → ℕ × ℕ
over_cap cap [] dropping chars = (dropping, chars)
over_cap cap (l ∷ ls) dropping chars =
    let more = over_cap cap ls (dropping + 1) (chars - (length l + 1)) in
    if ltb cap chars then more else (dropping, chars)

pub trim : Buffer → Buffer
trim b =
    let first = length b.buffered - b.line_cap in
    let (dropping, chars) =
      over_cap b.char_cap (drop first b.buffered) first (minus_lines first b.buffered b.chars) in
    if dropping == 0 then b else record b {
      buffered = drop dropping b.buffered;
      chars = chars;
      dropped = b.dropped + dropping;
    }

-- Pushes the complete lines.
pub push_lines : Buffer → List Text → Buffer
push_lines b [] = b
push_lines b (line ∷ lines) =
    let text = strip_return line in
    push_lines
      (record b { buffered = b.buffered ++ text ∷ []; chars = b.chars + (length text + 1) }) lines

pub append : Buffer → Text → Buffer × ℕ
append b [] = (b, 0)
append b (c ∷ chunk) =
    let (parts, rest) = cut (b.partial ++ c ∷ chunk) in
    let kept = record b { partial = rest } in
    let full = trim (push_lines kept parts) in
    if length parts == 0
    then (kept, 0)
    else (record full { revision = full.revision + 1 }, length parts)

pub flush : Buffer → Buffer
flush b = elim b.partial [
  | [] ↦ b
  | c ∷ s ↦
      let full = trim (record b {
        buffered = b.buffered ++ (c ∷ s) ∷ [];
        chars = b.chars + (length (c ∷ s) + 1);
        partial = [];
      }) in
      record full { revision = full.revision + 1 }
]

pub clear : Buffer → Buffer
clear b = record b {
  buffered = [];
  partial = [];
  chars = 0;
  dropped = 0;
  revision = b.revision + 1;
}

-- `all.join('\n')`
pub join : List Text → Text
join [] = []
join (l ∷ []) = l
join (l ∷ m ∷ ls) = l ++ 10 ∷ join (m ∷ ls)

pub text : Buffer → Text
unfolding join
text b = elim b.partial [ [] ↦ join b.buffered | c ∷ s ↦ join (b.buffered ++ (c ∷ s) ∷ []) ]
