-- ===== src/Connector/Store/Recovery.antt =====
-- What `save` writes, `load` finds again: the recovery after a crash.
use mathlib.Core.Path.{subst}
use super_boss.Base.{
  ℕ, ◌≤◌, ◌≡◌, refl, sym, ◌∙◌, ◌⊎◌, inl, inr, true, Option, none, some, List, [], ◌∷◌, ◌&&◌, leb,
  Time, Bool-cases, Option-cases, arith,
}
use super_boss.Base.Lists.{length}
use super_boss.Base.Texts.{Text, text_eq, text_eq_refl}
use super_boss.Core.Exec.{Result, ok, Result-cases, ok-injective}
use super_boss.Connector.Outbox.{OutboxEntry, validated_entry}
use super_boss.Connector.Outbox.Revalidation.{revalidated_entry, validated_keeps}
use super_boss.Connector.Store.{
  StoreTools, OriginDir, Document, local_state_max_bytes, load_optional, all_documents, load,
  path_for, save, stamped, replace_file, parsed, read_file, sole, sole_of,
}

-- no document, or one document under that name
Sole : Text → List Document → Type 0
Sole name ds = (ds ≡ []) ⊎ ((d : Document) × (ds ≡ d ∷ []) × (d.name ≡ name))

module _ (tools : StoreTools) (origin : Text) where
  pub sole_one :
      (name : Text) (x : OutboxEntry) (o : Option (Text × OutboxEntry))
      → sole tools origin ((name, x) ∷ []) ≡ ok o
      → o ≡ some (name, x)
  sole_one name x o e = elim (Bool-cases (text_eq x.normalized_origin origin)) [
    | inr a ↦ absurd (cc (rw a at e))
    | inl a ↦ elim (Bool-cases (text_eq name (tools.file_name x.idempotency_key))) [
      | inr b ↦ absurd (cc (rw (a, b) at e))
      | inl b ↦ sym (ok-injective _ _ (rw (a, b) at e))
    ]
  ]

  abbrev loaded : List Document → Result (Option (Text × OutboxEntry))
  loaded ds = sole_of tools origin (all_documents tools ds)

  pub one_document :
      (d : Document) (o : Option (Text × OutboxEntry))
      → loaded (d ∷ []) ≡ ok o
      → (x : OutboxEntry) × (o ≡ some (d.name, x))
  unfolding all_documents
  one_document d o e = elim (Option-cases (parsed tools (read_file d.content))) [
    | inl a ↦ absurd (cc (rw a at e))
    | inr (x, a) ↦ (x, sole_one d.name x o (rw a at e))
  ]

  pub two_documents :
      (c d : Document) (rest : List Document) (o : Option (Text × OutboxEntry))
      → loaded (c ∷ d ∷ rest) ≡ ok o
      → ⊥
  unfolding all_documents
  two_documents c d rest o e = elim (Option-cases (parsed tools (read_file c.content))) [
    | inl a ↦ cc (rw a at e)
    | inr (x, a) ↦ elim (Option-cases (parsed tools (read_file d.content))) [
      | inl b ↦ cc (rw (a, b) at e)
      | inr (y, b) ↦ elim (Result-cases (all_documents tools rest)) [
        | inr (f, c) ↦ cc (rw (a, b, c) at e)
        | inl (xs, c) ↦ cc (rw (a, b, c) at e)
      ]
    ]
  ]

  -- the directory that holds the file `name` at most, as `ensure_available` and `load` leave it
  unfoldable pub Ready : Text → OriginDir → Type 0
  Ready name dir =
      (load_optional tools origin dir ≡ ok none)
      ⊎ ((old : OutboxEntry) × (load_optional tools origin dir ≡ ok (some (name, old))))

  Ready-Sole :
      (name : Text) (ds : List Document) (o : Option (Text × OutboxEntry))
      → ((o ≡ none) ⊎ ((old : OutboxEntry) × (o ≡ some (name, old))))
      → loaded ds ≡ ok o
      → Sole name ds
  unfolding Sole
  Ready-Sole name [] o h e = inl refl
  Ready-Sole name (d ∷ []) o h e =
      let (x, same) = one_document d o e in
      inr (d, refl, elim h [ inl a ↦ absurd cc | inr (old, a) ↦ cc ])
  Ready-Sole name (c ∷ d ∷ rest) o h e = absurd (two_documents c d rest o e)

  replaced :
      (name bytes : Text) (ds : List Document)
      → Sole name ds
      → replace_file tools name bytes ds ≡ record { name = name; content = some bytes } ∷ []
  unfolding Sole
  replaced name bytes ds (inl a) = rw a refl
  replaced name bytes ds (inr (d, a, b)) = rw (a, b, text_eq_refl name) refl

  small :
      (n : ℕ) → 1 ≤ n → n ≤ local_state_max_bytes → (leb 1 n && leb n local_state_max_bytes) ≡ true
  small n least most = ground (arith, least, most)

  -- The document of a valid entry is read as that entry.
  read_back :
      (v : OutboxEntry)
      → validated_entry tools.is_space v ≡ some v
      → tools.parse_entry (tools.dump_entry v) ≡ some v
      → v.normalized_origin ≡ origin
      → 1 ≤ length (tools.dump_entry v)
      → length (tools.dump_entry v) ≤ local_state_max_bytes
      → loaded (
          record { name = path_for tools v.idempotency_key; content = some (tools.dump_entry v) }
          ∷ [])
        ≡ ok (some (path_for tools v.idempotency_key, v))
  unfolding all_documents
  read_back v good parsed_back same least most =
      rw
        (
          small (length (tools.dump_entry v)) least most,
          parsed_back,
          good,
          same,
          text_eq_refl origin,
          text_eq_refl (tools.file_name v.idempotency_key),
        )
        refl

  found :
      (v : OutboxEntry) (key : Text)
      → v.idempotency_key ≡ key
      → loaded (
          record { name = path_for tools v.idempotency_key; content = some (tools.dump_entry v) }
          ∷ [])
        ≡ ok (some (path_for tools v.idempotency_key, v))
      → loaded (record { name = path_for tools key; content = some (tools.dump_entry v) } ∷ [])
        ≡ ok (some (path_for tools key, v))
  found v key k back =
      subst
        (λ key.
          loaded (record { name = path_for tools key; content = some (tools.dump_entry v) } ∷ [])
          ≡ ok (some (path_for tools key, v)))
        k back

  -- In a directory that holds the document of the entry at most, a save of an entry that the
  -- validation accepts, whose document is read as it was written and has 1 to 262144 bytes, succeeds where
  -- the file system does, and `load` of its origin then gives the saved file and the validated entry.
  pub load-save :
      (e v : OutboxEntry) (now : Time) (dir : OriginDir)
      → Ready (path_for tools e.idempotency_key) dir
      → e.normalized_origin ≡ origin
      → validated_entry tools.is_space (stamped tools now e) ≡ some v
      → tools.parse_entry (tools.dump_entry v) ≡ some v
      → 1 ≤ length (tools.dump_entry v)
      → length (tools.dump_entry v) ≤ local_state_max_bytes
      → let done = save tools true now (path_for tools e.idempotency_key) e dir in
        (done.0 ≡ ok tt) × (load tools origin done.1 ≡ ok (path_for tools e.idempotency_key, v))
  unfolding save load load_optional Ready
  load-save e v now dir ready same good parsed_back least most =
      let (o, k) = validated_keeps tools.is_space (stamped tools now e) v good in
      let sole : Sole (path_for tools e.idempotency_key) dir.documents = elim ready [
        | inl a ↦ Ready-Sole _ dir.documents none (inl refl) a
        | inr (old, a) ↦ Ready-Sole _ dir.documents (some (_, old)) (inr (old, refl)) a
      ] in
      rw (good, replaced _ (tools.dump_entry v) dir.documents sole)
        (
          refl,
          rw
              (found v _ k (
                read_back v (revalidated_entry tools.is_space (stamped tools now e) v good)
                  parsed_back (o ∙ same) least most))
              refl,
        )
