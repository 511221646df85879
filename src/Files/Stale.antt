-- ===== src/Files/Stale.antt =====
-- StaleUploadService of server/src/superboss/modules/files/service.py: uploads that were abandoned
-- expire, and scans whose job was lost are dispatched again. Times are aware of their zone.
pub mod Expiry
use super_boss.Base.{
  ℕ, suc, ◌+◌, ◌-◌, Bool, true, false, Option, none, some, List, [], ◌∷◌, ◌++◌, map, Uuid, Time,
  not, ◌&&◌, ◌||◌, ltb, leb, ◌==◌, if◌then◌else◌, hours, minutes,
}
use super_boss.Base.Lists.{length, take, keep}
use super_boss.Base.Texts.{Text, codes}
use super_boss.Core.Errors.{value_error}
use super_boss.Core.Exec.{Exec, Result, ok, err, pure, raise_if, ◌>>=◌, ◌>>◌}
use super_boss.Files.Vault.{
  File, FileState, failed, is_uploading, is_quarantined, Tables, Work, abort_multipart,
  delete_object, get_file, put_file, commit, write, call, enqueue, others,
}

abbrev pub expiry_age : Time
expiry_age = hours 24

abbrev pub scan_retry_age : Time
scan_retry_age = minutes 15

abbrev before : (File → Time) → File → File → Bool
before time f g = ltb (time f) (time g) || (time f == time g && leb f.id g.id)

insert_file : (File → Time) → File → List File → List File
insert_file time f [] = f ∷ []
insert_file time f (g ∷ rest) =
    if before time f g then f ∷ g ∷ rest else g ∷ insert_file time f rest

order_by : (File → Time) → List File → List File
order_by time [] = []
order_by time (f ∷ rest) = insert_file time f (order_by time rest)

abbrev pub abort_open : Text → Option Text → Exec Work (Unit {0})
abort_open object_key none = pure tt
abort_open object_key (some multipart_id) = call (abort_multipart object_key multipart_id)

-- the object and the multipart upload of an expired file; their exceptions are dropped
abbrev pub clean_up : Bool → File → Exec Work (Unit {0})
clean_up false f = pure tt
clean_up true f = do abort_open f.object_key f.multipart_id; call (delete_object f.object_key)

-- `_expire_one` of the row that was read
abbrev expire_row : Bool → Time → Time → Option File → Exec Work Bool
expire_row has_storage cutoff now none = pure false
expire_row has_storage cutoff now (some f) =
    if not (is_uploading f.state) || leb cutoff f.created_at then pure false else do
      write
          (put_file now (record f { state = failed; scan_result = some (codes "UPLOAD_EXPIRED") }))
      commit
      clean_up has_storage f
      pure true

-- `meanwhile` is what other transactions commit before the row is locked.
unfoldable pub expire_one :
    (has_storage : Bool)
    → Uuid
    → (cutoff now : Time) → (meanwhile : Tables → Tables) → Exec Work Bool
expire_one has_storage id cutoff now meanwhile = do
  others meanwhile
  f ← (λ w. (ok (get_file id w.pending), w))
  expire_row has_storage cutoff now f

abbrev counted : Bool → ℕ → ℕ
counted true n = suc n
counted false n = n

expire_all : Bool → Time → Time → (Tables → Tables) → List Uuid → Exec Work ℕ
expire_all has_storage cutoff now meanwhile [] = pure 0
expire_all has_storage cutoff now meanwhile (id ∷ rest) = do
  done ← expire_one has_storage id cutoff now meanwhile
  recovered ← expire_all has_storage cutoff now meanwhile rest
  pure (counted done recovered)

-- the candidates of `_expire_uploads`
pub stale_uploads : (cutoff : Time) → (limit : ℕ) → List File → List Uuid
stale_uploads cutoff limit files =
    map (λ f. f.id)
      (take limit (
        order_by (λ f. f.created_at)
          (keep (λ f. is_uploading f.state && ltb f.created_at cutoff) files)))

-- the candidates of `_redispatch_scans`
pub lost_scans : (cutoff : Time) → (limit : ℕ) → List File → List Uuid
lost_scans cutoff limit files =
    map (λ f. f.id)
      (take limit (
        order_by (λ f. f.updated_at)
          (keep (λ f. is_quarantined f.state && ltb f.updated_at cutoff) files)))

abbrev enqueue_all : List Uuid → Exec Work ℕ
enqueue_all [] = pure 0
enqueue_all (id ∷ rest) = do enqueue id; n ← enqueue_all rest; pure (suc n)

pub recover_stale_uploads :
    (has_storage : Bool)
    → (reference now : Time) → (limit : ℕ) → (meanwhile : Tables → Tables) → Exec Work ℕ
recover_stale_uploads has_storage reference now limit meanwhile = do
  raise_if (ltb limit 1) value_error
  expired ← (λ w.
      expire_all has_storage (reference - expiry_age) now meanwhile
        (stale_uploads (reference - expiry_age) limit w.pending.files) w)
  again ← (λ w. enqueue_all (lost_scans (reference - scan_retry_age) limit w.pending.files) w)
  pure (expired + again)
