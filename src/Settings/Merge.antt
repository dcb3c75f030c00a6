-- ===== src/Settings/Merge.antt =====
-- internal/setting/merge.go: the user's and the project's settings in one configuration.
pub mod Precedence
use stepan.Base.{
  ℕ, String, Bool, true, false, ◌&&◌, ◌||◌, Option, none, some, List, [], ◌∷◌, ◌==◌, not, string_eq,
  is_empty, lookup, insert, any, all, contains, if◌then◌else◌,
}
use stepan.Run.{is_some}
use stepan.Settings.{
  SettingError, Loaded, loaded, rejected, ◌>>=◌, ◌>>◌, refuse_if, Raw, Object, Json, is_null,
  is_object, field, has, Sources,
}

pub record Configuration : Type 0 where
  pub profiles : Object
  pub roles : List (String × String)
  pub limits : Object
  pub checks : Raw
  pub required_checks : Raw
  pub rules_file : Raw
  pub main_branch : Raw

-- `section`; `present` is the map of the names that the object has.
pub record Section : Type 0 where
  pub roles : List (String × String)
  pub limits : Object
  pub checks : Raw
  pub required_checks : Raw
  pub rules_file : Raw
  pub main_branch : Raw
  pub present : Object

abbrev pub no_section : Section
no_section = record {
  roles = [];
  limits = [];
  checks = [];
  required_checks = [];
  rules_file = [];
  main_branch = [];
  present = [];
}

-- The test of one value of `rawObject`, for the profiles and for the other objects.
abbrev pub value_valid : Json → Bool → Bool → Raw → Bool
value_valid json profiles allow_null raw =
    (allow_null || not (is_null json raw))
    && (not profiles || is_null json raw || is_object json raw)

unfoldable pub raw_object : Json → Bool → Raw → Bool → Bool → Loaded Object
raw_object json profiles raw present allow_null =
    if not present then loaded [] else elim (json.object raw) [
      | none ↦ rejected SettingError.not_object
      | some values ↦
          refuse_if
            (not (all (λ (e : String × Raw). value_valid json profiles allow_null e.1) values))
            SettingError.bad_value
          >> loaded values
    ]

-- The loop of `stringObject`.
unfoldable pub strings_of : Json → Object → Loaded (List (String × String))
strings_of json [] = loaded []
strings_of json ((name, raw) ∷ rest) =
    if is_null json raw then rejected SettingError.not_object else elim (json.text raw) [
      | none ↦ rejected SettingError.not_object
      | some profile ↦ strings_of json rest >>= λ values. loaded ((name, profile) ∷ values)
    ]

unfoldable pub string_object : Json → Raw → Bool → Loaded (List (String × String))
string_object json raw present = if not present then loaded [] else elim (json.object raw) [
  | none ↦ rejected SettingError.not_object
  | some values ↦ strings_of json values
]

abbrev pub misplaced_fields : List String
misplaced_fields = "profiles" ∷ "auth_token" ∷ "nessy" ∷ "nessyapp" ∷ []

unfoldable pub parse_section : Json → Raw → Loaded Section
parse_section json raw = if is_empty raw then loaded no_section else elim (json.object raw) [
  | none ↦ rejected SettingError.not_object
  | some fields ↦
      refuse_if (any (λ name. has name fields) misplaced_fields) SettingError.misplaced
      >> (string_object json (field "roles" fields) (has "roles" fields) >>= λ roles.
          raw_object json false (field "limits" fields) (has "limits" fields) false >>= λ limits.
          loaded (record {
            roles = roles;
            limits = limits;
            checks = field "checks" fields;
            required_checks = field "required_checks" fields;
            rules_file = field "rules_file" fields;
            main_branch = field "main_branch" fields;
            present = fields;
          }))
]

abbrev pub project_fields : List String
project_fields = "checks" ∷ "required_checks" ∷ "rules_file" ∷ "main_branch" ∷ []

unfoldable pub reject_user_project_fields : Section → Loaded (Unit {0})
reject_user_project_fields user =
    refuse_if (any (λ name. has name user.present) project_fields) SettingError.project_only

-- The assignments of a range over a map: its names are distinct, so their order does not matter, and
-- where a list names one twice the first entry counts, as in a lookup.
unfoldable pub overlay : {A : Type 0} → List (String × A) → List (String × A) → List (String × A)
overlay [] m = m
overlay ((name, x) ∷ rest) m = insert name x (overlay rest m)

unfoldable pub delete : {A : Type 0} → String → List (String × A) → List (String × A)
delete name [] = []
delete name ((other, x) ∷ rest) =
    let kept = delete name rest in if other == name then kept else (other, x) ∷ kept

unfoldable pub overlay_profiles : Json → Object → Object → Object
overlay_profiles json [] m = m
overlay_profiles json ((name, raw) ∷ rest) m =
    let merged = overlay_profiles json rest m in
    if is_null json raw then delete name merged else insert name raw merged

unfoldable pub validate_role_profiles : Configuration → Loaded (Unit {0})
validate_role_profiles c =
    refuse_if (not (all (λ (e : String × String). has e.1 c.profiles) c.roles))
      SettingError.missing_profile

abbrev pub merged : Json → Section → Section → Object → Object → Configuration
merged json user project user_profiles project_profiles = record {
  profiles = overlay_profiles json project_profiles user_profiles;
  roles = overlay project.roles user.roles;
  limits = overlay project.limits user.limits;
  checks = project.checks;
  required_checks = project.required_checks;
  rules_file = project.rules_file;
  main_branch = project.main_branch;
}

unfoldable pub merge : Json → Sources → Loaded Configuration
merge json s = parse_section json s.user >>= λ user. parse_section json s.project >>= λ project.
    reject_user_project_fields user >>= λ _.
    raw_object json true s.user_profiles (not (is_empty s.user_profiles)) false >>= λ user_profiles.
    raw_object json true s.project_profiles (not (is_empty s.project_profiles)) true
    >>= λ project_profiles.
        validate_role_profiles (merged json user project user_profiles project_profiles) >>= λ _.
        loaded (merged json user project user_profiles project_profiles)

abbrev pub default_role_profiles : List (String × String)
default_role_profiles =
    ("orchestrator", "medium")
    ∷ ("briefer", "high")
    ∷ ("implementer", "medium")
    ∷ ("task_reviewer", "high")
    ∷ ("explorer", "low")
    ∷ ("final_reviewer", "ultra")
    ∷ ("bootstrapper", "high")
    ∷ []

abbrev pub loop_roles : List String
loop_roles =
    "orchestrator" ∷ "briefer" ∷ "implementer" ∷ "task_reviewer" ∷ "explorer" ∷ "final_reviewer"
    ∷ []

unfoldable pub role_profile : Configuration → String → String
role_profile c role = elim (lookup role c.roles) [
  | some profile ↦ profile
  | none ↦ elim (lookup role default_role_profiles) [ some profile ↦ profile | none ↦ "" ]
]

unfoldable pub validate_loop_roles : Configuration → Loaded (Unit {0})
validate_loop_roles c =
    refuse_if (not (all (λ role. has (role_profile c role) c.profiles) loop_roles))
      SettingError.missing_profile

unfoldable pub bootstrap_profile : Configuration → Option String
bootstrap_profile c =
    if has (role_profile c "bootstrapper") c.profiles
    then some (role_profile c "bootstrapper")
    else none
