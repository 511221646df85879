-- ===== src/Files/ClamAv/Written.antt =====
-- A stream within the bounds is written to its end.
use super_boss.Base.{
  ℕ, ◌+◌, ◌≤◌, ◌≡◌, refl, ap, some, List, [], ◌∷◌, ◌++◌, true, false, ltb, leb, arith,
}
use super_boss.Base.Chunks.{chunks, concat, concat-chunks}
use super_boss.Base.Lists.{length, All, length-append}
use super_boss.Base.Texts.{Text, codes}
use super_boss.Files.ClamAv.{ClamAvScanner, pack, frame, send_frames, send_chunks, conversation}
use super_boss.Files.ClamAv.Frames.{Sent, send_frames-Sent}

ltb-eq-false : (m n : ℕ) → n ≤ m → ltb m n ≡ false
ltb-eq-false m n h = ground (arith, h)

leb-eq-true : (m n : ℕ) → m ≤ n → leb m n ≡ true
leb-eq-true m n h = ground (arith, h)

send_frames-done :
    (m total : ℕ) (fs : List Text)
    → total + length (concat fs) ≤ m
    → (written : Text) × (total' : ℕ) × (send_frames m total fs ≡ some (written, total'))
unfolding send_frames
send_frames-done m total [] h = ([], total, refl)
send_frames-done m total (f ∷ fs) h =
    let size = length-append f (concat fs) in
    let (w, t, done) = send_frames-done m (total + length f) fs (omega (arith, h, size)) in
    (frame f ++ w, t, rw (ltb-eq-false m (total + length f) (omega (arith, h, size)), done) refl)

send_chunks-done :
    (c : ClamAvScanner) (total : ℕ) (stream : List Text)
    → 1 ≤ c.max_chunk_bytes
    → All (λ chunk. 1 ≤ length chunk) stream
    → total + length (concat stream) ≤ c.max_stream_bytes
    → (written : Text) × (total' : ℕ) × (send_chunks c total stream ≡ some (written, total'))
unfolding send_chunks Sent
send_chunks-done c total [] least all h = ([], total, refl)
send_chunks-done c total (chunk ∷ rest) least (full, all) h =
    let size = length-append chunk (concat rest) in
    let whole = concat-chunks c.max_chunk_bytes chunk least in
    let (w, t, sent) =
      send_frames-done c.max_stream_bytes total (chunks c.max_chunk_bytes chunk)
        (rw whole (omega (arith, h, size))) in
    let (x, y, z) =
      send_frames-Sent c.max_stream_bytes total (chunks c.max_chunk_bytes chunk) w t sent in
    let (v, t', more) =
      send_chunks-done c t rest least all (omega (arith, h, size, y, ap length whole)) in
    (w ++ v, t', rw (leb-eq-true 1 (length chunk) full, sent, more) refl)

-- A stream of chunks that are not empty, whose length is at most the configured number of bytes, is
-- written to its end.
pub conversation-done :
    (c : ClamAvScanner) (stream : List Text)
    → 1 ≤ c.max_chunk_bytes
    → All (λ chunk. 1 ≤ length chunk) stream
    → length (concat stream) ≤ c.max_stream_bytes
    → (bytes : Text) × (conversation c stream ≡ some bytes)
unfolding conversation
conversation-done c stream least all h =
    let (w, t, sent) = send_chunks-done c 0 stream least all (omega (arith, h)) in
    (codes "zINSTREAM" ++ 0 ∷ (w ++ pack 0), rw sent refl)
