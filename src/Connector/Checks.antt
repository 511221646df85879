-- ===== src/Connector/Checks.antt =====
-- The checks on texts that config.py, client.py, manifest.py and outbox.py repeat, and the kinds
-- of attachment.
use super_boss.Base.{
  ℕ, Bool, true, false, List, [], ◌∷◌, not, ◌&&◌, ◌||◌, ◌==◌, ltb, leb, if◌then◌else◌,
}
use super_boss.Base.Lists.{length, any, all}
use super_boss.Base.Texts.{Text}

pub data AttachmentKind : Type 0 where
  original revised k3_raw : AttachmentKind

abbrev pub kind_eq : AttachmentKind → AttachmentKind → Bool
kind_eq original original = true
kind_eq revised revised = true
kind_eq k3_raw k3_raw = true
kind_eq _ _ = false

-- `ord(character) < 32 or ord(character) == 127`
abbrev pub is_control : ℕ → Bool
is_control c = ltb c 32 || c == 127

abbrev pub is_plain : Text → Bool
is_plain t = not (any is_control t)

-- `Field(min_length=…, max_length=…)`
abbrev pub has_length : (least most : ℕ) → Text → Bool
has_length least most t = leb least (length t) && leb (length t) most

-- `[0-9a-f]{64}`
abbrev is_hex : ℕ → Bool
is_hex c = (leb b'0' c && leb c b'9') || (leb b'a' c && leb c b'f')

abbrev pub is_digest : Text → Bool
is_digest t = length t == 64 && all is_hex t

-- `len(values) != len(set(values))`
module _ {ℓ} {A : Type ℓ} (eq : A → A → Bool) where
  abbrev pub has_repeat : List A → Bool
  has_repeat [] = false
  has_repeat (x ∷ xs) = any (λ y. eq y x) xs || has_repeat xs

abbrev pub number_repeat : List ℕ → Bool
number_repeat = has_repeat ◌==◌

-- `values == sorted(values)`
abbrev pub is_sorted : List ℕ → Bool
is_sorted [] = true
is_sorted (x ∷ []) = true
is_sorted (x ∷ y ∷ rest) = leb x y && is_sorted (y ∷ rest)

-- `values.sort(key=…)`, which is stable
module _ {ℓ} {A : Type ℓ} (key : A → ℕ) where
  abbrev pub insert_by : A → List A → List A
  insert_by a [] = a ∷ []
  insert_by a (b ∷ rest) =
      let more = insert_by a rest in if leb (key a) (key b) then a ∷ b ∷ rest else b ∷ more

  abbrev pub sort_by : List A → List A
  sort_by [] = []
  sort_by (a ∷ rest) = insert_by a (sort_by rest)
