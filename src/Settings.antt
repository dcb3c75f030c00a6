-- ===== src/Settings.antt =====
-- internal/setting: the settings documents and what a consumer reads of them, with encoding/json as a
-- parameter.
pub mod Merge
pub mod Limits
pub mod Profile
pub mod Checks
pub mod Secrets
use stepan.Base.{
  ℕ, ◌≡◌, ◌⊎◌, inl, inr, refl, String, Bool, true, false, ◌&&◌, ◌||◌, Option, none, some, List, [],
  ◌∷◌, not, nat_eq, string_eq, list_beq, is_empty, lookup, any, ℤ, if◌then◌else◌,
}
use stepan.Run.{is_some}

-- What an error names; its text is left out.
pub data SettingError : Type 0 where
  invalid_document obsolete_section not_object user_only misplaced bad_value : SettingError
  project_only missing_profile bad_limit bad_profile bad_branch bad_check : SettingError
  unknown_check unavailable_check : SettingError

pub data Loaded {ℓ} (A : Type ℓ) : Type ℓ where
  loaded : A → Loaded A
  rejected : SettingError → Loaded A

infixl 5 ◌>>=◌ ◌>>◌
unfoldable pub ◌>>=◌ {ℓ κ} : {A : Type ℓ} {B : Type κ} → Loaded A → (A → Loaded B) → Loaded B
loaded a >>= f = f a
rejected e >>= f = rejected e

abbrev pub ◌>>◌ {ℓ} : {B : Type ℓ} → Loaded (Unit {0}) → Loaded B → Loaded B
m >> k = m >>= λ _. k

-- A guard with its error.
abbrev pub refuse_if : Bool → SettingError → Loaded (Unit {0})
refuse_if b e = if b then rejected e else loaded tt

pub loaded_before {ℓ κ} :
    {A : Type ℓ} {B : Type κ} (m : Loaded A) (f : A → Loaded B) (b : B)
    → (m >>= f) ≡ loaded b
    → (a : A) × (m ≡ loaded a) × (f a ≡ loaded b)
unfolding ◌>>=◌
loaded_before (loaded a) f b e = (a, refl, e)
loaded_before (rejected x) f b e = cc

pub loaded_value {ℓ} : {A : Type ℓ} (a b : A) → loaded a ≡ loaded b → a ≡ b
loaded_value a b e = cc

-- The bytes of a JSON value; none are there where the source has a nil message.
abbrev pub Raw : Type 0
Raw = List ℕ

abbrev pub Object : Type 0
Object = List (String × Raw)

-- The plain fields of a check's definition, with their zero values where they are absent.
pub record CheckHead : Type 0 where
  pub kind : String
  pub cwd : String
  pub timeout_seconds : ℤ

-- `json.Valid`; `json.Unmarshal` into a map or a slice of raw messages, where none is an error or the
-- nil value, into a string, into an int, into a slice of strings and into the fields of a check;
-- `bytes.TrimSpace`.
pub record Json : Type 0 where
  pub valid : Raw → Bool
  pub object : Raw → Option Object
  pub text : Raw → Option String
  pub int : Raw → Option ℤ
  pub array : Raw → Option (List Raw)
  pub texts : Raw → Option (List String)
  pub check_head : Raw → Option CheckHead
  pub trim : Raw → Raw

abbrev pub null_text : Raw
null_text = 110 ∷ 117 ∷ 108 ∷ 108 ∷ []

unfoldable pub is_null : Json → Raw → Bool
is_null json raw = list_beq (json.trim raw) null_text

unfoldable pub is_object : Json → Raw → Bool
is_object json raw = is_some (json.object raw)

-- A read of a Go map, which gives the nil message for a missing name.
unfoldable pub field : String → Object → Raw
field name fields = elim (lookup name fields) [ none ↦ [] | some raw ↦ raw ]

abbrev pub has : String → Object → Bool
has name fields = is_some (lookup name fields)

pub record Sources : Type 0 where
  pub user : Raw
  pub project : Raw
  pub user_profiles : Raw
  pub project_profiles : Raw

pub record DocumentSections : Type 0 where
  pub profiles : Raw
  pub loop : Raw

unfoldable pub nested_object : Json → Raw → Loaded Object
nested_object json raw = if is_empty raw then loaded [] else elim (json.object raw) [
  | none ↦ rejected SettingError.not_object
  | some fields ↦ loaded fields
]

-- The profiles of a document, if it has any, are an object.
abbrev pub profiles_valid : Json → Object → Loaded (Unit {0})
profiles_valid json agent =
    refuse_if (has "profiles" agent && not (is_object json (field "profiles" agent)))
      SettingError.not_object

-- The credential belongs to the user.
abbrev pub without_token : Json → Bool → Object → Loaded (Unit {0})
without_token json project agent =
    if project
    then (nested_object json (field "nessyapp" agent) >>= λ nessy.
        refuse_if (has "auth_token" nessy) SettingError.user_only)
    else loaded tt

unfoldable pub document_sections : Json → Bool → Object → Loaded DocumentSections
document_sections json project root =
    refuse_if (any (λ old. has old root) ("implementation" ∷ "nessy" ∷ []))
      SettingError.obsolete_section
    >> (nested_object json (field "agentruntime" root) >>= λ agent.
        nested_object json (field "flows" root) >>= λ flows.
        profiles_valid json agent
        >> (without_token json project agent
            >> (nested_object json (field "impl_loop" flows) >>= λ _.
                loaded
                  (record { profiles = field "profiles" agent; loop = field "impl_loop" flows }))))

-- An absent document is none.
unfoldable pub parse_document : Json → Bool → Option Raw → Loaded DocumentSections
parse_document json project none = loaded (record { profiles = []; loop = [] })
parse_document json project (some text) =
    if not (json.valid text)
    then rejected SettingError.invalid_document
    else elim (json.object text) [
      | none ↦ rejected SettingError.not_object
      | some root ↦ document_sections json project root
    ]

unfoldable pub sources_from_documents : Json → Option Raw → Option Raw → Loaded Sources
sources_from_documents json user project = parse_document json false user >>= λ u.
    parse_document json true project >>= λ p. loaded (record {
      user = u.loop;
      project = p.loop;
      user_profiles = u.profiles;
      project_profiles = p.profiles;
    })
