-- ===== src/Logs/Session/Chunks.antt =====
-- onChunk of PodLogSession.ts: the buffer that a log's chunks leave.
use kubiq.Logs.Buffer.{append}
use kubiq.Logs.Buffer.Chunks.{IsSound, content, append-IsSound, append_nothing, append-append}
use kubiq.Logs.Session.{Session, enter, on_chunk}
use kubiq.Base.{◌≡◌, ap, ◌∙◌, subst, sym, false, List, [], ◌∷◌, ◌++◌, Text, arith}

on_chunk-buffer :
    (chunk : Text) (s : Session)
    → s.disposed ≡ false
    → ((on_chunk chunk s).0.buffer ≡ (append s.buffer chunk).0)
      × ((on_chunk chunk s).0.disposed ≡ false)
unfolding on_chunk enter
on_chunk-buffer chunk s d = ground arith

pub concat : List Text → Text
concat [] = []
concat (t ∷ ts) = t ++ concat ts

pub chunk_all : List Text → Session → Session
chunk_all [] s = s
chunk_all (t ∷ ts) s = chunk_all ts (on_chunk t s).0

-- The chunks of a log leave a session that is not disposed, and whose buffer is sound, with the
-- buffer that the whole log in one chunk would leave, in all but the revision.
pub chunk_all-concat :
    (ts : List Text) (s : Session)
    → s.disposed ≡ false
    → IsSound s.buffer
    → content (chunk_all ts s).buffer ≡ content (append s.buffer (concat ts)).0
unfolding chunk_all concat
chunk_all-concat [] s d sound = ap (λ r. content r.0) (sym (append_nothing s.buffer))
chunk_all-concat (t ∷ ts) s d sound =
    let (buffer, runs) = on_chunk-buffer t s d in
    let sound' = subst IsSound (sym buffer) (append-IsSound s.buffer t sound) in
    chunk_all-concat ts (on_chunk t s).0 runs sound'
    ∙ ap (λ b. content (append b (concat ts)).0) buffer
    ∙ append-append s.buffer t (concat ts) sound
