-- ===== src/Files/ClamAv.antt =====
-- infrastructure/clamav.py: the INSTREAM conversation with clamd. The socket's answer is an
-- argument; a timeout or a failure of the socket is an answer of `none`.
pub mod Frames
pub mod Written
use super_boss.Base.{
  ℕ, ◌+◌, ◌-◌, ◌*◌, ◌/◌, ◌%◌, Bool, true, false, Option, none, some, List, [], ◌∷◌, ◌++◌, not, ◌&&◌,
  ◌||◌, ◌==◌, ltb, leb, if◌then◌else◌,
}
use super_boss.Base.Chunks.{chunks}
use super_boss.Base.Lists.{length, all, take, drop}
use super_boss.Base.Options.{◌>>=◌, ◌>>◌, require}
use super_boss.Base.Texts.{Text, codes, text_eq}
use super_boss.Core.Errors.{scan_error}
use super_boss.Core.Exec.{Result, ok, err}
use super_boss.Files.Scan.{ScanVerdict, clean, infected}

-- the fields of ClamAVScanner that bound the data
pub record ClamAvScanner : Type 0 where
  pub max_chunk_bytes : ℕ
  pub max_stream_bytes : ℕ
  pub max_response_bytes : ℕ

-- `__post_init__`, for those fields
pub is_configured : ClamAvScanner → Bool
is_configured c =
    (leb 1 c.max_chunk_bytes && leb c.max_chunk_bytes 4294967295)
    && (leb 1 c.max_stream_bytes && leb 1 c.max_response_bytes)

-- `struct.pack("!I", n)`
abbrev pub pack : ℕ → Text
pack n = n / 16777216 % 256 ∷ n / 65536 % 256 ∷ n / 256 % 256 ∷ n % 256 ∷ []

abbrev pub frame : Text → Text
frame bytes = pack (length bytes) ++ bytes

-- the inner loop: what it writes, and the total of the bytes after it
unfoldable pub send_frames : (max_stream_bytes total : ℕ) → List Text → Option (Text × ℕ)
send_frames max_stream_bytes total [] = some ([], total)
send_frames max_stream_bytes total (bytes ∷ rest) =
    let more = send_frames max_stream_bytes (total + length bytes) rest in
    if ltb max_stream_bytes (total + length bytes)
    then none
    else (more >>= λ (written, total'). some (frame bytes ++ written, total'))

-- the loop over the chunks of the stream
unfoldable pub send_chunks : ClamAvScanner → (total : ℕ) → List Text → Option (Text × ℕ)
send_chunks c total [] = some ([], total)
send_chunks c total (chunk ∷ rest) = do
  require (leb 1 (length chunk))
  (written, total') ← send_frames c.max_stream_bytes total (chunks c.max_chunk_bytes chunk)
  (more, total'') ← send_chunks c total' rest
  some (written ++ more, total'')

abbrev starts_with : Text → Text → Bool
starts_with t prefix = text_eq (take (length prefix) t) prefix

abbrev ends_with : Text → Text → Bool
ends_with t suffix =
    leb (length suffix) (length t) && text_eq (drop (length t - length suffix) t) suffix

-- `response[len(prefix) : -len(suffix)]`
abbrev signature_bytes : Text → Text
signature_bytes response = take (length response - 6 - 8) (drop 8 response)

-- `_parse_response`
pub parse_response : Text → Option ScanVerdict
parse_response response =
    let signature = signature_bytes response in
    if text_eq response (codes "stream: OK")
    then some clean
    else if not (starts_with response (codes "stream: "))
        || not (ends_with response (codes " FOUND"))
    then none
    else if leb 1 (length signature) && all (λ c. ltb c 128) signature
    then some (infected (some signature))
    else none

abbrev answered : ClamAvScanner → Option Text → Option ScanVerdict
answered c none = none
answered c (some response) =
    if ltb c.max_response_bytes (length response - 1)
    then none
    else parse_response (take (length response - 1) response)

-- the whole of what `scan` writes to the socket
unfoldable pub conversation : ClamAvScanner → List Text → Option Text
conversation c stream = send_chunks c 0 stream >>= λ (written, total).
    some (codes "zINSTREAM" ++ 0 ∷ (written ++ pack 0))

abbrev or_scan_error : {A : Type 0} → Option A → Result A
or_scan_error none = err scan_error
or_scan_error (some a) = ok a

-- `scan`; `response` ends in a zero byte, as `readuntil` returns it
pub scan : ClamAvScanner → List Text → (response : Option Text) → Result ScanVerdict
scan c stream response = or_scan_error (conversation c stream >> answered c response)
