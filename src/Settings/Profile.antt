-- ===== src/Settings/Profile.antt =====
-- internal/setting/profile.go and branch.go: the runtime profile of a role, and the main branch.
pub mod Complete
use stepan.Base.{
  String, Bool, true, false, ◌||◌, Option, none, some, List, [], ◌∷◌, string_eq, is_blank, is_empty,
  lookup, if◌then◌else◌,
}
use stepan.Settings.{SettingError, Loaded, loaded, rejected, ◌>>=◌, Raw, Json, Object}
use stepan.Settings.Merge.{Configuration, role_profile}

pub record RuntimeProfile : Type 0 where
  pub name : String
  pub provider : String
  pub model : String
  pub reasoning : String

-- A string that is not blank, or the error.
abbrev pub text_of : Json → Raw → SettingError → Loaded String
text_of json raw e = elim (json.text raw) [
  | none ↦ rejected e
  | some text ↦ if is_blank text then rejected e else loaded text
]

unfoldable pub required_profile_string : Json → String → Object → Loaded String
required_profile_string json name fields = elim (lookup name fields) [
  | none ↦ rejected SettingError.bad_profile
  | some raw ↦ text_of json raw SettingError.bad_profile
]

abbrev pub reasoning_of : Json → Object → Loaded String
reasoning_of json fields = elim (lookup "reasoning" fields) [
  | none ↦ loaded ""
  | some raw ↦ text_of json raw SettingError.bad_profile
]

unfoldable pub profile_of : Json → String → Object → Loaded RuntimeProfile
profile_of json name fields = required_profile_string json "provider" fields >>= λ provider.
    required_profile_string json "model" fields >>= λ model.
    reasoning_of json fields >>= λ reasoning.
    loaded (record { name = name; provider = provider; model = model; reasoning = reasoning })

unfoldable pub decode_runtime_profile : Json → String → Raw → Loaded RuntimeProfile
decode_runtime_profile json name raw = elim (json.object raw) [
  | none ↦ rejected SettingError.bad_profile
  | some fields ↦ profile_of json name fields
]

unfoldable pub resolve_profile : Json → Configuration → String → Loaded RuntimeProfile
resolve_profile json c name = elim (lookup name c.profiles) [
  | none ↦ rejected SettingError.missing_profile
  | some raw ↦ decode_runtime_profile json name raw
]

unfoldable pub resolve_role_profile : Json → Configuration → String → Loaded RuntimeProfile
resolve_role_profile json c role = elim (lookup (role_profile c role) c.profiles) [
  | none ↦ rejected SettingError.missing_profile
  | some _ ↦ resolve_profile json c (role_profile c role)
]

-- The empty name leaves the discovery of the branch to the caller.
unfoldable pub main_branch_name : Json → Configuration → Loaded String
main_branch_name json c =
    if is_empty c.main_branch then loaded "" else text_of json c.main_branch SettingError.bad_branch
