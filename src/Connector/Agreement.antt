-- ===== src/Connector/Agreement.antt =====
-- The order of attachments in the server's answer, and the order that `create_job` of the
-- connector requires.
use super_boss.Base.{
  ℕ, ◌≤◌, ◌≡◌, ◌≢◌, refl, sym, ap, ◌∙◌, inl, inr, true, false, Option, List, [], ◌∷◌, ◌++◌, map,
  ◌==◌, Bool-cases, Option-cases, &&-eq-true, arith,
}
use super_boss.Base.Lists.{All, All-map_lem, keep}
use super_boss.Base.Rows.{find_by}
use super_boss.Core.Exec.{ok, Result-cases, ok-injective}
use super_boss.Files.Vault.{File}
use super_boss.Imports.Jobs.{
  ImportJob, ImportAttachment, ImportTables, job_attachments, kind_rank, precedes,
  insert_attachment, order_attachments,
}
use super_boss.Imports.Reading.{
  ImportAttachmentView, ImportJobView, attachment_views, viewed, job_view,
}
use super_boss.Connector.Checks.{kind_eq}
use super_boss.Connector.Manifest.{ServerManifest}
use super_boss.Connector.Client.{
  ClientTools, Reply, JobResponse, is_created, response_kinds, manifest_kinds, kinds_eq,
}
use super_boss.Connector.Client.Calls.{create_job, answered_lem}
use super_boss.Connector.Checks
use super_boss.Imports.Jobs

-- the member of the connector's enum with the same text
unfoldable pub wire_kind : Jobs.AttachmentKind → Checks.AttachmentKind
wire_kind Jobs.original = Checks.original
wire_kind Jobs.revised = Checks.revised
wire_kind Jobs.k3_raw = Checks.k3_raw

Ordered : List ImportAttachment → Type 0
Ordered [] = Unit
Ordered (a ∷ rest) = All (λ b. kind_rank a.kind ≤ kind_rank b.kind) rest × Ordered rest

Below : ℕ → List ImportAttachment → Type 0
Below n = All (λ b. n ≤ kind_rank b.kind)

Below-insert_attachment :
    (n : ℕ) (a : ImportAttachment) (rest : List ImportAttachment)
    → n ≤ kind_rank a.kind
    → Below n rest
    → Below n (insert_attachment a rest)
unfolding Below
Below-insert_attachment n a [] h all = (h, tt)
Below-insert_attachment n a (b ∷ rest) h (k, all) = elim (Bool-cases (precedes a b)) [
  | inl e ↦ rw e (h, (k, all))
  | inr e ↦ rw e (k, Below-insert_attachment n a rest h all)
]

precedes_le : (a b : ImportAttachment) → precedes a b ≡ true → kind_rank a.kind ≤ kind_rank b.kind
precedes_le a b h = ground (arith, h)

follows_le : (a b : ImportAttachment) → precedes a b ≡ false → kind_rank b.kind ≤ kind_rank a.kind
follows_le a b h = ground (arith, h)

insert_attachment-Ordered :
    (a : ImportAttachment) (rest : List ImportAttachment)
    → Ordered rest
    → Ordered (insert_attachment a rest)
unfolding Ordered Below
insert_attachment-Ordered a [] h = (tt, tt)
insert_attachment-Ordered a (b ∷ rest) (all, h) = elim (Bool-cases (precedes a b)) [
  | inl e ↦
      let le = precedes_le a b e in
      rw e ((le, All-map_lem _ _ (λ c k. omega (arith, le, k)) rest all), (all, h))
  | inr e ↦ rw e (
    Below-insert_attachment (kind_rank b.kind) a rest (follows_le a b e) all,
    insert_attachment-Ordered a rest h,
  )
]

order_attachments-Ordered : (as' : List ImportAttachment) → Ordered (order_attachments as')
unfolding Ordered
order_attachments-Ordered [] = tt
order_attachments-Ordered (a ∷ rest) =
    insert_attachment-Ordered a (order_attachments rest) (order_attachments-Ordered rest)

abbrev pub view_kinds : List ImportAttachmentView → List Jobs.AttachmentKind
view_kinds = map (λ v. v.kind)

views-kinds :
    (t : ImportTables) (as' : List ImportAttachment) (vs : List ImportAttachmentView)
    → attachment_views t as' ≡ ok vs
    → view_kinds vs ≡ map (λ (a : ImportAttachment). a.kind) as'
views-kinds t [] vs e = let it : [] ≡ vs = cc in rw⁻¹ it refl
views-kinds t (a ∷ rest) vs e =
    elim (Option-cases (find_by (λ (f : File). f.id == a.file_id) t.files)) [
      | inl x ↦ absurd (cc (rw x at e))
      | inr (f, x) ↦ elim (Result-cases (attachment_views t rest)) [
        | inr (u, y) ↦ absurd (cc (rw (x, y) at e))
        | inl (ws, y) ↦
            ap view_kinds (sym (ok-injective _ vs (rw (x, y) at e)))
            ∙ ap (◌∷◌ a.kind) (views-kinds t rest ws y)
      ]
    ]

job_view-kinds :
    (t : ImportTables) (job : ImportJob) (view : ImportJobView)
    → job_view t job ≡ ok view
    → view_kinds view.attachments
      ≡ map (λ (a : ImportAttachment). a.kind) (job_attachments job.id t)
unfolding job_view
job_view-kinds t job view e = elim (Result-cases (attachment_views t (job_attachments job.id t))) [
  | inr (u, y) ↦ absurd (cc (rw y at e))
  | inl (ws, y) ↦
      ap (λ (v : ImportJobView). view_kinds v.attachments) (sym (ok-injective _ view (rw y at e)))
      ∙ views-kinds t (job_attachments job.id t) ws y
]

wire_kinds : List ImportAttachment → List Checks.AttachmentKind
wire_kinds = map (λ a. wire_kind a.kind)

raw_rank : (k : Jobs.AttachmentKind) → wire_kind k ≡ Checks.k3_raw → kind_rank k ≤ 0
unfolding wire_kind
raw_rank Jobs.original e = absurd cc
raw_rank Jobs.revised e = absurd cc
raw_rank Jobs.k3_raw e = omega arith

rank_raw : (k : Jobs.AttachmentKind) → kind_rank k ≤ 0 → wire_kind k ≡ Checks.k3_raw
unfolding wire_kind
rank_raw Jobs.original h = absurd (omega (arith, h))
rank_raw Jobs.revised h = absurd (omega (arith, h))
rank_raw Jobs.k3_raw h = refl

-- Where a K3_RAW stands at the end, an attachment of rank 0 stands there.
low_end :
    (n : ℕ) (rest : List ImportAttachment) (ks : List Checks.AttachmentKind)
    → Below n rest
    → wire_kinds rest ≡ ks ++ Checks.k3_raw ∷ []
    → n ≤ 0
unfolding Below wire_kinds
low_end n [] [] all e = absurd cc
low_end n [] (k ∷ ks) all e = absurd cc
low_end n (b ∷ rest) (k ∷ ks) (h, all) e = low_end n rest ks all cc
low_end n (b ∷ rest) [] (h, all) e =
    let last : wire_kind b.kind ≡ Checks.k3_raw = cc in omega (arith, h, raw_rank b.kind last)

-- A list of attachments in the server's order does not end in its only K3_RAW behind another kind.
not_last :
    (as' : List ImportAttachment) (k : Checks.AttachmentKind) (ks : List Checks.AttachmentKind)
    → Ordered as'
    → wire_kinds as' ≡ k ∷ (ks ++ Checks.k3_raw ∷ [])
    → k ≡ Checks.k3_raw
unfolding Ordered Below wire_kinds
not_last [] k ks o e = absurd cc
not_last (a ∷ rest) k ks (below, o) e =
    let first : wire_kind a.kind ≡ k = cc in
    let tail : wire_kinds rest ≡ ks ++ Checks.k3_raw ∷ [] = cc in
    sym first ∙ rank_raw a.kind (low_end (kind_rank a.kind) rest ks below tail)

kind_eq-eq : (k l : Checks.AttachmentKind) → kind_eq k l ≡ true → k ≡ l
kind_eq-eq Checks.original Checks.original h = refl
kind_eq-eq Checks.original Checks.revised h = cc
kind_eq-eq Checks.original Checks.k3_raw h = cc
kind_eq-eq Checks.revised Checks.original h = cc
kind_eq-eq Checks.revised Checks.revised h = refl
kind_eq-eq Checks.revised Checks.k3_raw h = cc
kind_eq-eq Checks.k3_raw Checks.original h = cc
kind_eq-eq Checks.k3_raw Checks.revised h = cc
kind_eq-eq Checks.k3_raw Checks.k3_raw h = refl

kinds_eq-eq : (ks ls : List Checks.AttachmentKind) → kinds_eq ks ls ≡ true → ks ≡ ls
kinds_eq-eq [] [] h = refl
kinds_eq-eq [] (l ∷ ls) h = cc
kinds_eq-eq (k ∷ ks) [] h = cc
kinds_eq-eq (k ∷ ks) (l ∷ ls) h =
    let (a, b) = &&-eq-true (kind_eq k l) (kinds_eq ks ls) h in
    ap (λ x. x ∷ ks) (kind_eq-eq k l a) ∙ ap (◌∷◌ l) (kinds_eq-eq ks ls b)

created-kinds :
    (m : ServerManifest) (r : JobResponse)
    → is_created m r ≡ true
    → response_kinds r.attachments ≡ manifest_kinds m.attachments
unfolding is_created
created-kinds m r h =
    let (_, rest) = &&-eq-true _ _ h in
    let (kinds, _) = &&-eq-true _ _ rest in kinds_eq-eq _ _ (&&-eq-true _ _ kinds).0

-- The connector's `create_job` accepts no answer that lists the attachments of the job's view, if
-- the manifest names another kind before K3_RAW, which its order puts last: the view orders kinds by
-- their text, so that K3_RAW comes first. Every job with two or three attachments is such a job.
pub create_job-refuses :
    (t : ImportTables) (job : ImportJob) (view : ImportJobView) (tools : ClientTools)
    (m : ServerManifest) (reply : Option Reply) (r : JobResponse) (k : Checks.AttachmentKind)
    (ks : List Checks.AttachmentKind)
    → job_view t job ≡ ok view
    → response_kinds r.attachments ≡ map wire_kind (view_kinds view.attachments)
    → manifest_kinds m.attachments ≡ k ∷ (ks ++ Checks.k3_raw ∷ [])
    → k ≢ Checks.k3_raw
    → create_job tools m reply ≢ ok r
unfolding create_job wire_kinds
create_job-refuses t job view tools m reply r k ks viewed same declared other done =
    let (_, good) = &&-eq-true _ _ (answered_lem tools false tools.parse_job _ reply r done) in
    let kinds : wire_kinds (job_attachments job.id t) ≡ k ∷ (ks ++ Checks.k3_raw ∷ []) =
      map-map (job_attachments job.id t)
      ∙ ap (map wire_kind) (sym (job_view-kinds t job view viewed))
      ∙ sym same
      ∙ created-kinds m r good
      ∙ declared in
    other (
      not_last (job_attachments job.id t) k ks
        (order_attachments-Ordered (keep (λ a. a.job_id == job.id) t.attachments)) kinds)
  where
    map-map :
        (as' : List ImportAttachment)
        → map (λ (a : ImportAttachment). wire_kind a.kind) as'
          ≡ map wire_kind (map (λ (a : ImportAttachment). a.kind) as')
    map-map [] = refl
    map-map (a ∷ rest) = ap (◌∷◌ (wire_kind a.kind)) (map-map rest)
