-- ===== src/Files/Stale/Expiry.antt =====
-- Which upload expires, and what else changes.
use super_boss.Base.{
  ◌≡◌, ◌<◌, ◌↔◌, ◌⊎◌, refl, inl, inr, Bool, true, false, some, arith, Uuid, Time, Bool-cases,
  Option-cases, not, ◌||◌, leb,
}
use super_boss.Base.Rows.{save}
use super_boss.Base.Texts.{codes}
use super_boss.Core.Exec.{ok}
use super_boss.Files.Vault.{File, FileState, is_uploading, file_key, Tables, Work, get_file}
use super_boss.Files.Stale.{expire_one, expire_row}

is_uploading_iff : (s : FileState) → (is_uploading s ≡ true) ↔ (s ≡ FileState.uploading)
is_uploading_iff FileState.uploading = (λ e. refl, λ e. refl)
is_uploading_iff FileState.quarantined = (λ e. cc, λ e. cc)
is_uploading_iff FileState.scanning = (λ e. cc, λ e. cc)
is_uploading_iff FileState.clean = (λ e. cc, λ e. cc)
is_uploading_iff FileState.infected = (λ e. cc, λ e. cc)
is_uploading_iff FileState.failed = (λ e. cc, λ e. cc)

-- the columns that an expired row keeps, with its new state and reason
abbrev pub expired : File → Time → File
expired f now = record f {
  state = FileState.failed;
  scan_result = some (codes "UPLOAD_EXPIRED");
  updated_at = now;
}

late : (cutoff : Time) (f : File) → f.created_at < cutoff → leb cutoff f.created_at ≡ false
late cutoff f old = ground arith

expires :
    (has_storage : Bool) (f : File) (cutoff now : Time) (w : Work)
    → f.state ≡ FileState.uploading
    → leb cutoff f.created_at ≡ false
    → let r = expire_row has_storage cutoff now (some f) w in
      (r.0 ≡ ok true) × (r.1.durable.files ≡ save file_key (expired f now) w.pending.files)
expires true f cutoff now w up old = elim (Option-cases f.multipart_id) [
  | inl e ↦ rw (up, old, e) (refl, refl)
  | inr (m, e) ↦ rw (up, old, e) (refl, refl)
]
expires false f cutoff now w up old = rw (up, old) (refl, refl)

both : (a b : Bool) → (not a || b) ≡ false → (a ≡ true) × (b ≡ false)
both a b e = ground arith

keeps :
    (has_storage : Bool) (f : File) (cutoff now : Time) (w : Work)
    → (not (is_uploading f.state) || leb cutoff f.created_at) ≡ true
    → expire_row has_storage cutoff now (some f) w ≡ (ok false, w)
keeps has_storage f cutoff now w kept = rw kept refl

-- An upload is expired exactly when its row, read again under the lock, is still uploading and
-- was created before the cutoff; then that row alone is written, as FAILED with the reason, and
-- otherwise no row is.
pub expire_one_iff :
    (has_storage : Bool) (id : Uuid) (cutoff now : Time) (meanwhile : Tables → Tables) (w : Work)
    → let r = expire_one has_storage id cutoff now meanwhile w in
      let t = meanwhile w.durable in
      ((f : File) × (get_file id t ≡ some f)
        × (f.state ≡ FileState.uploading)
        × (f.created_at < cutoff)
        × (r.0 ≡ ok true)
        × (r.1.durable.files ≡ save file_key (expired f now) t.files))
      ⊎ (((f : File)
            → get_file id t ≡ some f
            → f.state ≡ FileState.uploading
            → f.created_at < cutoff
            → ⊥)
          × (r ≡ (ok false, record w { durable = t; pending = t })))
unfolding expire_one
expire_one_iff has_storage id cutoff now meanwhile w =
    elim (Option-cases (get_file id (meanwhile w.durable))) [
      | inl e ↦ inr ((λ f found up old. absurd cc), rw e refl)
      | inr (f, e) ↦ elim (Bool-cases (not (is_uploading f.state) || leb cutoff f.created_at)) [
        | inl kept ↦ inr (
          (λ g found up old.
              let same : f ≡ g = cc in
              let up' : f.state ≡ FileState.uploading = rw same up in
              let old' : f.created_at < cutoff = rw same old in
              absurd (cc (rw (up', late cutoff f old') at kept))),
          rw e (keeps has_storage f cutoff now _ kept),
        )
        | inr gone ↦
            let (up, old) = both (is_uploading f.state) (leb cutoff f.created_at) gone in
            let up' : f.state ≡ FileState.uploading = (is_uploading_iff f.state).0 up in
            let (answer, rows) =
              expires has_storage f cutoff now
                (record w { durable = meanwhile w.durable; pending = meanwhile w.durable }) up'
                old in
            inl (f, e, up', ground arith, rw e answer, rw e rows)
      ]
    ]
