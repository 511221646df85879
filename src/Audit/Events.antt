-- ===== src/Audit/Events.antt =====
-- When two audit rows tell one event, and that `_same_event` decides it.
use super_boss.Base.{
  ℕ, ◌≡◌, ◌≢◌, ◌↔◌, refl, sym, ap, inl, inr, true, Option, none, some, List, [], ◌∷◌, String, arith,
  opt_eq, Bool-cases, ◌==◌, str_eq, str_eq_iff, str_eq_refl, &&-eq-true, if◌then◌else◌,
}
use super_boss.Base.Lists.{All, length}
use super_boss.Core.Actors.{ActorKind}
use super_boss.Core.Directory.{AuditLog, Meta}
use super_boss.Audit.{same_event, kind_eq, list_eq, meta_eq, has_entry, all_in}

-- the value of a key in a dict
abbrev get : String → List (String × Meta) → Option Meta
get k [] = none
get k ((j, v) ∷ rest) = if str_eq j k then some v else get k rest

-- a dict names a key once
unfoldable pub IsDict : List (String × Meta) → Type 0
IsDict [] = Unit {0}
IsDict ((k, v) ∷ rest) = All (λ e. e.0 ≢ k) rest × IsDict rest

-- Two rows tell one event: their columns are equal, but for the key of the event, and their
-- metadata have equally many entries, with every entry of the first in the second.
pub record SameEvent (a b : AuditLog) : Type 0 where
  pub actor_kind : a.actor_kind ≡ b.actor_kind
  pub actor_id : a.actor_id ≡ b.actor_id
  pub action : a.action ≡ b.action
  pub object_type : a.object_type ≡ b.object_type
  pub object_id : a.object_id ≡ b.object_id
  pub project_id : a.project_id ≡ b.project_id
  pub outcome : a.outcome ≡ b.outcome
  pub request_id : a.request_id ≡ b.request_id
  pub size : length a.metadata ≡ length b.metadata
  pub entries : All (λ e. get e.0 b.metadata ≡ some e.1) a.metadata

pub opt_eq_iff : (a b : Option ℕ) → (opt_eq a b ≡ true) ↔ (a ≡ b)
opt_eq_iff none none = (λ e. refl, λ e. refl)
opt_eq_iff none (some b) = (λ e. absurd cc, λ e. absurd cc)
opt_eq_iff (some a) none = (λ e. absurd cc, λ e. absurd cc)
opt_eq_iff (some a) (some b) = (λ e. ground (arith, e), λ e. ground (arith, e))

kind_eq_iff : (a b : ActorKind) → (kind_eq a b ≡ true) ↔ (a ≡ b)
kind_eq_iff ActorKind.user ActorKind.user = (λ e. refl, λ e. refl)
kind_eq_iff ActorKind.device ActorKind.device = (λ e. refl, λ e. refl)
kind_eq_iff ActorKind.system ActorKind.system = (λ e. refl, λ e. refl)
kind_eq_iff ActorKind.user ActorKind.device = (λ e. absurd cc, λ e. absurd cc)
kind_eq_iff ActorKind.user ActorKind.system = (λ e. absurd cc, λ e. absurd cc)
kind_eq_iff ActorKind.device ActorKind.user = (λ e. absurd cc, λ e. absurd cc)
kind_eq_iff ActorKind.device ActorKind.system = (λ e. absurd cc, λ e. absurd cc)
kind_eq_iff ActorKind.system ActorKind.user = (λ e. absurd cc, λ e. absurd cc)
kind_eq_iff ActorKind.system ActorKind.device = (λ e. absurd cc, λ e. absurd cc)

list_eq_iff : (s t : List String) → (list_eq s t ≡ true) ↔ (s ≡ t)
list_eq_iff [] [] = (λ e. refl, λ e. refl)
list_eq_iff [] (t ∷ ts) = (λ e. absurd cc, λ e. absurd cc)
list_eq_iff (s ∷ ss) [] = (λ e. absurd cc, λ e. absurd cc)
list_eq_iff (s ∷ ss) (t ∷ ts) = (
  λ e.
      let (a, b) = &&-eq-true (str_eq s t) (list_eq ss ts) e in
      let p = (str_eq_iff s t).0 a in let q = (list_eq_iff ss ts).0 b in cc,
  λ e.
      let p : s ≡ t = cc in
      let q : ss ≡ ts = cc in rw ((str_eq_iff s t).1 p, (list_eq_iff ss ts).1 q) refl,
)

meta_eq_iff : (a b : Meta) → (meta_eq a b ≡ true) ↔ (a ≡ b)
meta_eq_iff (Meta.text s) (Meta.text t) =
    (λ e. ap Meta.text ((str_eq_iff s t).0 e), λ e. (str_eq_iff s t).1 cc)
meta_eq_iff (Meta.number m) (Meta.number n) = (λ e. ground (arith, e), λ e. ground (arith, e))
meta_eq_iff (Meta.text_list s) (Meta.text_list t) =
    (λ e. ap Meta.text_list ((list_eq_iff s t).0 e), λ e. (list_eq_iff s t).1 cc)
meta_eq_iff (Meta.text_list s) (Meta.text t) = (λ e. absurd cc, λ e. absurd cc)
meta_eq_iff (Meta.text_list s) (Meta.number n) = (λ e. absurd cc, λ e. absurd cc)
meta_eq_iff (Meta.text_list s) Meta.null = (λ e. absurd cc, λ e. absurd cc)
meta_eq_iff (Meta.text s) (Meta.text_list t) = (λ e. absurd cc, λ e. absurd cc)
meta_eq_iff (Meta.number m) (Meta.text_list t) = (λ e. absurd cc, λ e. absurd cc)
meta_eq_iff Meta.null (Meta.text_list t) = (λ e. absurd cc, λ e. absurd cc)
meta_eq_iff Meta.null Meta.null = (λ e. refl, λ e. refl)
meta_eq_iff (Meta.text s) (Meta.number n) = (λ e. absurd cc, λ e. absurd cc)
meta_eq_iff (Meta.text s) Meta.null = (λ e. absurd cc, λ e. absurd cc)
meta_eq_iff (Meta.number m) (Meta.text t) = (λ e. absurd cc, λ e. absurd cc)
meta_eq_iff (Meta.number m) Meta.null = (λ e. absurd cc, λ e. absurd cc)
meta_eq_iff Meta.null (Meta.text t) = (λ e. absurd cc, λ e. absurd cc)
meta_eq_iff Meta.null (Meta.number n) = (λ e. absurd cc, λ e. absurd cc)

has_entry_iff :
    (k : String) (v : Meta) (b : List (String × Meta))
    → (has_entry k v b ≡ true) ↔ (get k b ≡ some v)
has_entry_iff k v [] = (λ e. absurd cc, λ e. absurd cc)
has_entry_iff k v ((j, w) ∷ rest) = elim (Bool-cases (str_eq j k)) [
  | inl e ↦ rw e (λ h. ap some ((meta_eq_iff w v).0 h), λ h. (meta_eq_iff w v).1 cc)
  | inr e ↦ rw e (has_entry_iff k v rest)
]

all_in_iff : (a b : List (String × Meta)) → (all_in a b ≡ true) ↔ All (λ e. get e.0 b ≡ some e.1) a
all_in_iff [] b = (λ e. tt, λ e. refl)
all_in_iff ((k, v) ∷ rest) b = (
  λ h.
      let (here, later) = &&-eq-true (has_entry k v b) (all_in rest b) h in
      ((has_entry_iff k v b).0 here, (all_in_iff rest b).0 later),
  λ h. rw ((has_entry_iff k v b).1 h.0, (all_in_iff rest b).1 h.1) refl,
)

-- A dict has its own entries.
get_other :
    (k : String) (v : Meta) (b a : List (String × Meta))
    → All (λ e. e.0 ≢ k) a
    → All (λ e. get e.0 b ≡ some e.1) a
    → All (λ e. get e.0 ((k, v) ∷ b) ≡ some e.1) a
get_other k v b [] ne h = tt
get_other k v b ((j, w) ∷ rest) ne h = (
  elim (Bool-cases (str_eq k j)) [
    | inl e ↦ absurd (ne.0 (sym ((str_eq_iff k j).0 e)))
    | inr e ↦ rw e h.0
  ],
  get_other k v b rest ne.1 h.1,
)

own_entries : (a : List (String × Meta)) → IsDict a → All (λ e. get e.0 a ≡ some e.1) a
unfolding IsDict
own_entries [] d = tt
own_entries ((k, v) ∷ rest) d =
    (rw (str_eq_refl k) refl, get_other k v rest rest d.0 (own_entries rest d.1))

pub same_event_sound : (a b : AuditLog) → same_event a b ≡ true → SameEvent a b
unfolding same_event
same_event_sound a b h =
    let (h1, t1) = &&-eq-true (kind_eq a.actor_kind b.actor_kind) _ h in
    let (h2, t2) = &&-eq-true (opt_eq a.actor_id b.actor_id) _ t1 in
    let (h3, t3) = &&-eq-true (str_eq a.action b.action) _ t2 in
    let (h4, t4) = &&-eq-true (str_eq a.object_type b.object_type) _ t3 in
    let (h5, t5) = &&-eq-true (opt_eq a.object_id b.object_id) _ t4 in
    let (h6, t6) = &&-eq-true (opt_eq a.project_id b.project_id) _ t5 in
    let (h7, t7) = &&-eq-true (str_eq a.outcome b.outcome) _ t6 in
    let (h8, t8) = &&-eq-true (opt_eq a.request_id b.request_id) _ t7 in
    let (h9, t9) = &&-eq-true (length a.metadata == length b.metadata) _ t8 in
    record {
      actor_kind = (kind_eq_iff a.actor_kind b.actor_kind).0 h1;
      actor_id = (opt_eq_iff a.actor_id b.actor_id).0 h2;
      action = (str_eq_iff a.action b.action).0 h3;
      object_type = (str_eq_iff a.object_type b.object_type).0 h4;
      object_id = (opt_eq_iff a.object_id b.object_id).0 h5;
      project_id = (opt_eq_iff a.project_id b.project_id).0 h6;
      outcome = (str_eq_iff a.outcome b.outcome).0 h7;
      request_id = (opt_eq_iff a.request_id b.request_id).0 h8;
      size = ground (arith, h9);
      entries = (all_in_iff a.metadata b.metadata).0 t9;
    }

pub same_event_complete : (a b : AuditLog) → SameEvent a b → same_event a b ≡ true
unfolding same_event
same_event_complete a b s =
    rw
      (
        (kind_eq_iff a.actor_kind b.actor_kind).1 s.actor_kind,
        (opt_eq_iff a.actor_id b.actor_id).1 s.actor_id,
        (str_eq_iff a.action b.action).1 s.action,
        (str_eq_iff a.object_type b.object_type).1 s.object_type,
        (opt_eq_iff a.object_id b.object_id).1 s.object_id,
        (opt_eq_iff a.project_id b.project_id).1 s.project_id,
        (str_eq_iff a.outcome b.outcome).1 s.outcome,
        (opt_eq_iff a.request_id b.request_id).1 s.request_id,
        length_same a b s.size,
      )
      ((all_in_iff a.metadata b.metadata).1 s.entries)
  where
    length_same :
        (a b : AuditLog)
        → length a.metadata ≡ length b.metadata
        → (length a.metadata == length b.metadata) ≡ true
    length_same a b e = ground (arith, e)

-- A row of a dict is its own event.
pub same_event_refl : (row : AuditLog) → IsDict row.metadata → same_event row row ≡ true
same_event_refl row d = same_event_complete row row (record {
  actor_kind = refl;
  actor_id = refl;
  action = refl;
  object_type = refl;
  object_id = refl;
  project_id = refl;
  outcome = refl;
  request_id = refl;
  size = refl;
  entries = own_entries row.metadata d;
})
