-- ===== src/Logs/Buffer/Chunks.antt =====
-- append and flush of PodLogBuffer.ts: the buffer's invariant, and where a chunk may be cut.
use kubiq.Base.{
  ℕ, ◌+◌, ◌-◌, ◌≡◌, refl, sym, ap, subst, ◌∙◌, true, false, List, [], ◌∷◌, ◌++◌, map, map-append,
  append-nil, append_assoc, arith, ◌==◌, if◌then◌else◌, Text, length, length-append,
}
use kubiq.Logs.Buffer.{Buffer, new, cut, strip_return, total, trim, push_lines, append}
use kubiq.Logs.Buffer.Cut.{IsPartial, cut-append, cut_rest}
use kubiq.Logs.Buffer.Newest.{
  fits, newest, newest_fitting, newest-fits, newest-append, length-newest, total-append, trim_lem,
}

-- `chars` counts the lines, both caps hold, and the partial line has no line end.
pub record IsSound (b : Buffer) : Type 0 where
  pub counted : b.chars ≡ total b.buffered
  pub capped : fits b.line_cap b.char_cap b.buffered ≡ true
  pub open_line : IsPartial b.partial

-- The lines of a chunk as the buffer keeps them, and the line that the chunk leaves open.
abbrev pub lines_of : Buffer → Text → List Text
lines_of b chunk = map strip_return (cut (b.partial ++ chunk)).0

abbrev pub rest_of : Buffer → Text → Text
rest_of b chunk = (cut (b.partial ++ chunk)).1

-- All of a buffer but its revision.
abbrev pub content : Buffer → Buffer
content b = record b { revision = 0 }

-- The content with the lines `ls` behind it and the open line `p`, trimmed.
abbrev with_lines : Buffer → List Text → Text → Buffer
with_lines b ls p =
    let n = newest b.line_cap b.char_cap (b.buffered ++ ls) in
    record b {
      buffered = n;
      partial = p;
      chars = total n;
      dropped = b.dropped + (length (b.buffered ++ ls) - length n);
      revision = 0;
    }

push_lines_lem :
    (b : Buffer) (ls : List Text)
    → b.chars ≡ total b.buffered
    → push_lines b ls ≡ record b {
      buffered = b.buffered ++ map strip_return ls;
      chars = total (b.buffered ++ map strip_return ls);
    }
unfolding push_lines total
push_lines_lem b [] h = λ i. record b {
  buffered = sym (append-nil b.buffered) i;
  chars = (h ∙ ap total (sym (append-nil b.buffered))) i;
}
push_lines_lem b (l ∷ ls) h =
    let text = strip_return l in
    let e : (b.buffered ++ text ∷ []) ++ map strip_return ls
        ≡ b.buffered ++ (text ∷ map strip_return ls) =
      append_assoc b.buffered (text ∷ []) (map strip_return ls) in
    push_lines_lem
      (record b { buffered = b.buffered ++ text ∷ []; chars = b.chars + (length text + 1) }) ls
      (omega (arith, total-append b.buffered (text ∷ [])))
    ∙ (λ i. record b { buffered = e i; chars = total (e i) })

-- No line: the content stays, but for the open line.
with_lines-nil :
    (b : Buffer) (p : Text) → IsSound b → with_lines b [] p ≡ content (record b { partial = p })
with_lines-nil b p s =
    let n : newest b.line_cap b.char_cap (b.buffered ++ []) ≡ b.buffered =
      ap (newest b.line_cap b.char_cap) (append-nil b.buffered)
      ∙ newest_fitting b.line_cap b.char_cap b.buffered s.capped in
    let d : b.dropped
          + (length (b.buffered ++ []) - length (newest b.line_cap b.char_cap (b.buffered ++ [])))
        ≡ b.dropped =
      omega (arith, ap length n, ap length (append-nil b.buffered)) in
    λ i. record b {
      buffered = n i;
      partial = p;
      chars = (ap total n ∙ sym s.counted) i;
      dropped = d i;
      revision = 0;
    }

-- `append` behind the split, whatever the parts are.
content-parts :
    (b : Buffer) (parts : List Text) (p : Text)
    → IsSound b
    → let kept = record b { partial = p } in
      let full = trim (push_lines kept parts) in
      let result : Buffer × ℕ =
        if length parts == 0
        then (kept, 0)
        else (record full { revision = full.revision + 1 }, length parts) in
      content result.0 ≡ with_lines b (map strip_return parts) p
content-parts b [] p s = sym (with_lines-nil b p s)
content-parts b (l ∷ ls) p s =
    let b' = record b { partial = p } in
    let some_parts : (length (l ∷ ls) == 0) ≡ false = ground arith in
    rw some_parts (ap content (ap trim (push_lines_lem b' (l ∷ ls) s.counted) ∙ trim_lem _ refl))

content-append :
    (b : Buffer) (x : Text)
    → IsSound b
    → content (append b x).0 ≡ with_lines b (lines_of b x) (rest_of b x)
unfolding append
content-append b [] s =
    let e : cut (b.partial ++ []) ≡ ([], b.partial) = ap cut (append-nil b.partial) ∙ s.open_line in
    sym (with_lines-nil b b.partial s)
    ∙ ap (λ (c : List Text × Text). with_lines b (map strip_return c.0) c.1) (sym e)
content-append b (c ∷ x) s = content-parts b (cut (b.partial ++ c ∷ x)).0 _ s

with_lines-IsSound :
    (b : Buffer) (ls : List Text) (p : Text) → IsPartial p → IsSound (with_lines b ls p)
with_lines-IsSound b ls p h = record {
  counted = refl;
  capped = newest-fits b.line_cap b.char_cap (b.buffered ++ ls);
  open_line = h;
}

-- The revision does not matter.
content-IsSound : (b : Buffer) → IsSound (content b) → IsSound b
content-IsSound b s = record { counted = s.counted; capped = s.capped; open_line = s.open_line }

-- Appending a chunk to a sound buffer keeps it sound: `chars` counts the buffered lines, both caps
-- hold of them, and the open line has no line end.
pub append-IsSound : (b : Buffer) (x : Text) → IsSound b → IsSound (append b x).0
append-IsSound b x s = content-IsSound _ (
    subst IsSound (sym (content-append b x s))
      (with_lines-IsSound b (lines_of b x) (rest_of b x) (cut_rest (b.partial ++ x))))

-- Adding lines twice is adding them all.
with_lines-twice :
    (b : Buffer) (ls ms : List Text) (p q : Text)
    → with_lines (with_lines b ls p) ms q ≡ with_lines b (ls ++ ms) q
with_lines-twice b ls ms p q =
    let all = append_assoc b.buffered ls ms in
    let n : newest b.line_cap b.char_cap (newest b.line_cap b.char_cap (b.buffered ++ ls) ++ ms)
        ≡ newest b.line_cap b.char_cap (b.buffered ++ (ls ++ ms)) =
      newest-append b.line_cap b.char_cap (b.buffered ++ ls) ms
      ∙ ap (newest b.line_cap b.char_cap) all in
    let d : (with_lines (with_lines b ls p) ms q).dropped ≡ (with_lines b (ls ++ ms) q).dropped =
      omega (
        arith,
        ap length n,
        ap length all,
        length-append (newest b.line_cap b.char_cap (b.buffered ++ ls)) ms,
        length-append (b.buffered ++ ls) ms,
        length-newest b.line_cap b.char_cap (b.buffered ++ ls),
        length-newest b.line_cap b.char_cap ((b.buffered ++ ls) ++ ms),
        length-newest b.line_cap b.char_cap (newest b.line_cap b.char_cap (b.buffered ++ ls) ++ ms),
      ) in
    λ i. record b { buffered = n i; partial = q; chars = total (n i); dropped = d i; revision = 0 }

-- Two chunks leave a sound buffer as their concatenation does, in all but the revision: the cluster
-- may cut the log anywhere, inside a line or a line end too, and lines dropped early change nothing.
pub append-append :
    (b : Buffer) (x y : Text)
    → IsSound b
    → content (append (append b x).0 y).0 ≡ content (append b (x ++ y)).0
append-append b x y s =
    let first = content-append b x s in
    let cuts = cut-append (b.partial ++ x) y in
    content-append (append b x).0 y (append-IsSound b x s)
    ∙ ap (λ (c : Buffer). with_lines c (lines_of c y) (rest_of c y)) first
    ∙ with_lines-twice b (lines_of b x) (map strip_return (cut (rest_of b x ++ y)).0) (rest_of b x)
        _
    ∙ ap (λ ls. with_lines b ls (cut (rest_of b x ++ y)).1)
        (sym (map-append strip_return (cut (b.partial ++ x)).0 (cut (rest_of b x ++ y)).0))
    ∙ ap (λ (c : List Text × Text). with_lines b (map strip_return c.0) c.1)
        (sym cuts ∙ ap cut (append_assoc b.partial x y))
    ∙ sym (content-append b (x ++ y) s)

pub new-IsSound : (line_cap char_cap : ℕ) → IsSound (new line_cap char_cap)
unfolding total cut
new-IsSound line_cap char_cap = record { counted = refl; capped = ground arith; open_line = refl }

pub append_nothing : (b : Buffer) → append b [] ≡ (b, 0)
unfolding append
append_nothing b = refl
