-- ===== src/Files/ClamAv/Frames.antt =====
-- clamd reads the stream back from the frames.
use super_boss.Base.{
  ℕ, zero, suc, ◌+◌, ◌*◌, ◌/◌, ◌%◌, ◌≤◌, ◌≡◌, refl, sym, ap, ◌∙◌, inl, inr, Option, none, some,
  List, [], ◌∷◌, ◌++◌, map, ◌==◌, ltb, leb, if◌then◌else◌, arith, Bool-cases, Option-cases,
}
use mathlib.Core.List.{append_assoc}
use super_boss.Base.Chunks.{chunks, concat, concat-chunks, chunks-Fits, Fits}
use super_boss.Base.Lists.{length, take, drop, All, All-append, length-append}
use super_boss.Base.Options.{◌>>=◌}
use super_boss.Base.Texts.{Text, codes}
use super_boss.Files.ClamAv.{ClamAvScanner, pack, frame, send_frames, send_chunks, conversation}

some-injective : {A : Type 0} (a b : A) → some a ≡ some b → a ≡ b
some-injective a b e = cc

abbrev unpack : (a b c d : ℕ) → ℕ
unpack a b c d = ((a * 256 + b) * 256 + c) * 256 + d

-- What the protocol says of a reader: frames of a length and that many bytes, up to the length 0,
-- which ends the stream. `fuel` bounds the number of frames.
abbrev pub deframe : (fuel : ℕ) → Text → Option Text
deframe zero t = none
deframe (suc fuel) (a ∷ b ∷ c ∷ d ∷ rest) =
    let n = unpack a b c d in
    let more = deframe fuel (drop n rest) in
    if n == 0
    then some []
    else if ltb (length rest) n
    then none
    else (more >>= λ bytes. some (take n rest ++ bytes))
deframe (suc fuel) _ = none

unpack-pack :
    (n : ℕ)
    → n ≤ 4294967295
    → unpack (n / 16777216 % 256) (n / 65536 % 256) (n / 256 % 256) (n % 256) ≡ n
unpack-pack n h = omega (arith, h)

take-append : (f t : Text) → take (length f) (f ++ t) ≡ f
take-append [] t = refl
take-append (x ∷ f) t = ap (◌∷◌ x) (take-append f t)

drop-append : (f t : Text) → drop (length f) (f ++ t) ≡ t
drop-append [] t = refl
drop-append (x ∷ f) t = drop-append f t

-- the bytes of frames, up to and with the zero
abbrev wire : List Text → Text
wire fs = concat (map frame fs) ++ pack 0

deframe-frame :
    (fuel : ℕ) (f t bytes : Text)
    → 1 ≤ length f
    → length f ≤ 4294967295
    → deframe fuel t ≡ some bytes
    → deframe (suc fuel) (frame f ++ t) ≡ some (f ++ bytes)
deframe-frame fuel f t bytes least most h =
    rw (unpack-pack (length f) most, drop-append f t, take-append f t, h)
      (ground (arith, least, length-append f t))

deframe-wire :
    (most : ℕ) (fs : List Text)
    → most ≤ 4294967295
    → All (Fits most) fs
    → deframe (suc (length fs)) (wire fs) ≡ some (concat fs)
unfolding Fits
deframe-wire most [] h all = refl
deframe-wire most (f ∷ fs) h ((l, m), all) =
    ap (deframe (suc (suc (length fs)))) (append_assoc (frame f) (concat (map frame fs)) (pack 0))
    ∙ (deframe-frame (suc (length fs)) f (wire fs) (concat fs) l (omega (arith, m, h))
        (deframe-wire most fs h all))

-- the bytes that were written for frames, and the total of the stream after them
unfoldable pub Sent : (max_stream_bytes total : ℕ) → List Text → Text → ℕ → Type 0
Sent max_stream_bytes total fs written total' =
    (written ≡ concat (map frame fs))
    × (total' ≡ total + length (concat fs))
    × (total ≤ max_stream_bytes → total' ≤ max_stream_bytes)

some_pair :
    (w v : Text) (t u : ℕ)
    → ◌≡◌ {A = Option (Text × ℕ)} (some (w, t)) (some (v, u))
    → (w ≡ v) × (t ≡ u)
some_pair w v t u e = (cc, cc)

Sent-nil :
    (m total : ℕ) (written : Text) (total' : ℕ)
    → ◌≡◌ {A = Option (Text × ℕ)} (some ([], total)) (some (written, total'))
    → Sent m total [] written total'
unfolding Sent
Sent-nil m total written total' e =
    let (there, same) = some_pair [] written total total' e in
    (sym there, omega (arith, same), λ h. omega (arith, h, same))

pub send_frames-Sent :
    (max_stream_bytes total : ℕ) (fs : List Text) (written : Text) (total' : ℕ)
    → send_frames max_stream_bytes total fs ≡ some (written, total')
    → Sent max_stream_bytes total fs written total'
unfolding send_frames Sent
send_frames-Sent m total [] written total' e = Sent-nil m total written total' e
send_frames-Sent m total (f ∷ fs) written total' e = elim (Bool-cases (ltb m (total + length f))) [
  | inl a ↦ absurd (cc (rw a at e))
  | inr a ↦ elim (Option-cases (send_frames m (total + length f) fs)) [
    | inl b ↦ absurd (cc (rw (a, b) at e))
    | inr ((w, t), b) ↦
        let (x, y, z) = send_frames-Sent m (total + length f) fs w t b in
        let (there, same) = some_pair (frame f ++ w) written t total' (rw (a, b) at e) in
        (
          sym there ∙ ap (λ u. frame f ++ u) x,
          omega (arith, y, same, length-append f (concat fs)),
          λ h. let le : total + length f ≤ m = ground (arith, a) in omega (arith, z le, same),
        )
  ]
]

map-append :
    (fs gs : List Text)
    → concat (map frame (fs ++ gs)) ≡ concat (map frame fs) ++ concat (map frame gs)
map-append [] gs = refl
map-append (f ∷ fs) gs =
    ap (λ t. frame f ++ t) (map-append fs gs)
    ∙ sym (append_assoc (frame f) (concat (map frame fs)) (concat (map frame gs)))

concat-append : (fs gs : List Text) → concat (fs ++ gs) ≡ concat fs ++ concat gs
concat-append [] gs = refl
concat-append (f ∷ fs) gs =
    ap (λ t. f ++ t) (concat-append fs gs) ∙ sym (append_assoc f (concat fs) (concat gs))

-- the frames of a stream, in order
abbrev frames_of : ClamAvScanner → List Text → List Text
frames_of c [] = []
frames_of c (chunk ∷ rest) = chunks c.max_chunk_bytes chunk ++ frames_of c rest

concat-frames_of :
    (c : ClamAvScanner) (stream : List Text)
    → 1 ≤ c.max_chunk_bytes
    → concat (frames_of c stream) ≡ concat stream
concat-frames_of c [] h = refl
concat-frames_of c (chunk ∷ rest) h =
    concat-append (chunks c.max_chunk_bytes chunk) (frames_of c rest)
    ∙ rw (concat-chunks c.max_chunk_bytes chunk h, concat-frames_of c rest h) refl

frames_of-Fits :
    (c : ClamAvScanner) (stream : List Text)
    → 1 ≤ c.max_chunk_bytes
    → All (Fits c.max_chunk_bytes) (frames_of c stream)
frames_of-Fits c [] h = tt
frames_of-Fits c (chunk ∷ rest) h =
    All-append (Fits c.max_chunk_bytes) (chunks c.max_chunk_bytes chunk) (frames_of c rest)
      (chunks-Fits c.max_chunk_bytes chunk h) (frames_of-Fits c rest h)

Sent-append :
    (m t t' t'' : ℕ) (fs gs : List Text) (w v : Text)
    → Sent m t fs w t'
    → Sent m t' gs v t''
    → Sent m t (fs ++ gs) (w ++ v) t''
unfolding Sent
Sent-append m t t' t'' fs gs w v (x, y, z) (x', y', z') = (
  ap (λ u. u ++ v) x ∙ ap (λ u. concat (map frame fs) ++ u) x' ∙ sym (map-append fs gs),
  rw (concat-append fs gs) (omega (arith, y, y', length-append (concat fs) (concat gs))),
  λ h. z' (z h),
)

send_chunks-Sent :
    (c : ClamAvScanner) (total : ℕ) (stream : List Text) (written : Text) (total' : ℕ)
    → send_chunks c total stream ≡ some (written, total')
    → Sent c.max_stream_bytes total (frames_of c stream) written total'
unfolding send_chunks
send_chunks-Sent c total [] written total' e = Sent-nil c.max_stream_bytes total written total' e
send_chunks-Sent c total (chunk ∷ rest) written total' e =
    elim (Bool-cases (leb 1 (length chunk))) [
      | inr a ↦ absurd (cc (rw a at e))
      | inl a ↦
          elim (Option-cases
            (send_frames c.max_stream_bytes total (chunks c.max_chunk_bytes chunk))) [
              | inl b ↦ absurd (cc (rw (a, b) at e))
              | inr ((w, t), b) ↦ elim (Option-cases (send_chunks c t rest)) [
                | inl d ↦ absurd (cc (rw (a, b, d) at e))
                | inr ((v, t'), d) ↦
                    let (there, same) = some_pair (w ++ v) written t' total' (rw (a, b, d) at e) in
                    rw⁻¹ (same, there)
                      (Sent-append c.max_stream_bytes total t t' (chunks c.max_chunk_bytes chunk)
                        (frames_of c rest) w v
                        (send_frames-Sent c.max_stream_bytes total (chunks c.max_chunk_bytes chunk)
                          w t b)
                        (send_chunks-Sent c t rest v t' d))
              ]
            ]
    ]

-- With frames of 1 to 2 ^ 32 - 1 bytes, what `scan` writes for a stream is the command and a body
-- that the reader of the protocol reads as exactly that stream, which has at most the configured
-- number of bytes.
pub deframe-conversation :
    (c : ClamAvScanner) (stream : List Text) (bytes : Text)
    → 1 ≤ c.max_chunk_bytes
    → c.max_chunk_bytes ≤ 4294967295
    → conversation c stream ≡ some bytes
    → (body : Text) × (fuel : ℕ) × (bytes ≡ codes "zINSTREAM" ++ 0 ∷ body)
      × (deframe fuel body ≡ some (concat stream))
      × (length (concat stream) ≤ c.max_stream_bytes)
unfolding conversation Sent
deframe-conversation c stream bytes least most e = elim (Option-cases (send_chunks c 0 stream)) [
  | inl a ↦ absurd (cc (rw a at e))
  | inr ((w, t), a) ↦
      let (x, y, z) = send_chunks-Sent c 0 stream w t a in
      let whole = concat-frames_of c stream least in
      (
        w ++ pack 0,
        suc (length (frames_of c stream)),
        some-injective bytes _ (sym (rw a at e)),
        rw (x) (
            deframe-wire c.max_chunk_bytes (frames_of c stream) most (frames_of-Fits c stream least)
            ∙ ap some whole),
        omega (arith, z (omega arith), y, ap length whole),
      )
]
