-- ===== src/SettingsTests.antt =====
-- Tests of the settings' model, and the theorems at concrete inputs.
use stepan.Base.{
  is_empty, all, ℕ, ◌≡◌, refl, String, Bool, true, false, Option, none, some, List, [], ◌∷◌, ◌==◌,
  nat_eq, lookup, ℤ, pos, if◌then◌else◌,
}
use stepan.Settings.{
  Loaded, loaded, Raw, Object, Json, Sources, parse_document, sources_from_documents,
}
use stepan.Settings.Secrets.{IsClean, sources_from_documents-IsClean}
use stepan.Settings.Merge.{Configuration, merge, validate_loop_roles, role_profile}
use stepan.Settings.Merge.Precedence.{Merged, merge-Merged, merge-validate_loop_roles}
use stepan.Settings.Checks.{Platform, CheckSelection, select_checks}
use stepan.Settings.Checks.Runnable.{IsReady, select_checks-IsReady}
use stepan.Settings.Limits.{LoopLimits, default_loop_limits, resolve_limits}
use stepan.Settings.Limits.Positive.{AllEffective, resolve_limits-AllEffective}
use stepan.Settings.Profile.{RuntimeProfile, resolve_role_profile}
use stepan.Settings.Profile.Complete.{IsComplete, IsDeclared, resolve_role_profile-IsDeclared}

-- A decoder that knows a value by its first byte.
abbrev objects : List (ℕ × Object)
objects =
    (1, ("roles", 2 ∷ []) ∷ ("limits", 3 ∷ []) ∷ [])
    ∷ (2, ("briefer", 5 ∷ []) ∷ [])
    ∷ (3, ("review_rounds", 6 ∷ []) ∷ [])
    ∷ (
      4,
      ("low", 7 ∷ [])
          ∷ ("spare", 7 ∷ [])
          ∷ ("medium", 7 ∷ [])
          ∷ ("high", 7 ∷ [])
          ∷ ("ultra", 7 ∷ [])
          ∷ [],
    )
    ∷ (7, ("provider", 5 ∷ []) ∷ ("model", 5 ∷ []) ∷ [])
    ∷ (8, ("spare", 110 ∷ 117 ∷ 108 ∷ 108 ∷ []) ∷ [])
    ∷ (9, ("agentruntime", 10 ∷ []) ∷ ("flows", 11 ∷ []) ∷ [])
    ∷ (10, ("profiles", 4 ∷ []) ∷ ("nessyapp", 7 ∷ []) ∷ [])
    ∷ (11, ("impl_loop", 1 ∷ []) ∷ [])
    ∷ (12, ("tests", 13 ∷ []) ∷ [])
    ∷ (13, ("command", 14 ∷ []) ∷ ("platforms", 15 ∷ []) ∷ [])
    ∷ (14, ("program", 5 ∷ []) ∷ ("args", 16 ∷ 5 ∷ []) ∷ [])
    ∷ (15, ("linux/amd64", 14 ∷ []) ∷ [])
    ∷ []

abbrev json : Json
json = record {
  valid = λ _. true;
  object = λ (raw : Raw). elim raw [ [] ↦ none | b ∷ _ ↦ lookup b objects ];
  text = λ (raw : Raw). elim raw [ [] ↦ none | b ∷ _ ↦ if b == 5 then some "low" else none ];
  int = λ (raw : Raw). elim raw [ [] ↦ none | b ∷ _ ↦ if b == 6 then some (pos 4) else none ];
  array = λ (raw : Raw). elim raw [ [] ↦ none | _ ∷ rest ↦ some (rest ∷ []) ];
  texts = λ (raw : Raw). elim raw [ [] ↦ none | _ ∷ _ ↦ some ("tests" ∷ []) ];
  check_head = λ (raw : Raw). some (record { kind = "tests"; cwd = ""; timeout_seconds = pos 0 });
  trim = λ (raw : Raw). raw;
}

abbrev sources : Sources
sources = record { user = 1 ∷ []; project = []; user_profiles = 4 ∷ []; project_profiles = 8 ∷ [] }

abbrev configuration : Configuration
configuration = record {
  profiles = ("low", 7 ∷ []) ∷ ("medium", 7 ∷ []) ∷ ("high", 7 ∷ []) ∷ ("ultra", 7 ∷ []) ∷ [];
  roles = ("briefer", "low") ∷ [];
  limits = ("review_rounds", 6 ∷ []) ∷ [];
  checks = [];
  required_checks = [];
  rules_file = [];
  main_branch = [];
}

sources_load : merge json sources ≡ loaded configuration
unfolding merge stepan.Settings.◌>>=◌ stepan.Settings.Merge.parse_section
    stepan.Settings.Merge.string_object stepan.Settings.field stepan.Settings.Merge.strings_of
    stepan.Settings.is_null stepan.Settings.Merge.raw_object
    stepan.Settings.Merge.reject_user_project_fields stepan.Settings.is_object
    stepan.Settings.Merge.validate_role_profiles stepan.Settings.Merge.overlay
    stepan.Settings.Merge.overlay_profiles stepan.Settings.Merge.delete
sources_load = refl

merge-Merged_example : Merged json sources configuration
merge-Merged_example = merge-Merged json sources configuration sources_load

merge-validate_loop_roles_example : validate_loop_roles configuration ≡ loaded tt
merge-validate_loop_roles_example =
    merge-validate_loop_roles json sources configuration sources_load refl

effective :
    resolve_limits json configuration
    ≡ loaded (record default_loop_limits { review_rounds = pos 4 })
unfolding resolve_limits stepan.Settings.◌>>=◌ stepan.Settings.Limits.resolve_limit
effective = refl

resolve_limits-AllEffective_example :
    AllEffective json configuration (record default_loop_limits { review_rounds = pos 4 })
resolve_limits-AllEffective_example =
    resolve_limits-AllEffective json configuration
      (record default_loop_limits { review_rounds = pos 4 }) effective

abbrev low_profile : RuntimeProfile
low_profile = record { name = "low"; provider = "low"; model = "low"; reasoning = "" }

resolves : resolve_role_profile json configuration "briefer" ≡ loaded low_profile
unfolding resolve_role_profile role_profile stepan.Settings.Profile.resolve_profile
    stepan.Settings.Profile.decode_runtime_profile stepan.Settings.Profile.profile_of
    stepan.Settings.◌>>=◌ stepan.Settings.Profile.required_profile_string stepan.Base.is_blank
resolves = refl

resolve_role_profile-IsDeclared_example :
    IsComplete (role_profile configuration "briefer") low_profile
    × IsDeclared json configuration (role_profile configuration "briefer") low_profile
resolve_role_profile-IsDeclared_example =
    resolve_role_profile-IsDeclared json configuration "briefer" low_profile resolves

abbrev document_only : Sources
document_only = record {
  user = [];
  project = 1 ∷ [];
  user_profiles = [];
  project_profiles = 4 ∷ [];
}

document_sources : sources_from_documents json none (some (9 ∷ [])) ≡ loaded document_only
unfolding sources_from_documents stepan.Settings.◌>>=◌ parse_document
    stepan.Settings.document_sections stepan.Settings.nested_object stepan.Settings.field
    stepan.Settings.is_object
document_sources = refl

sources_from_documents-IsClean_example : IsClean json (9 ∷ [])
sources_from_documents-IsClean_example =
    sources_from_documents-IsClean json none (9 ∷ []) document_only document_sources

abbrev checked : Configuration
checked = record configuration { checks = 12 ∷ []; required_checks = 1 ∷ [] }

abbrev linux : Platform
linux = record { os = "linux"; architecture = "amd64" }

abbrev selection : CheckSelection
selection = record {
  required = "tests" ∷ [];
  checks =
      (
        "tests",
        record {
          name = "tests";
          kind = "tests";
          command = some (record { program = "low"; args = "low" ∷ []; env = [] });
          cwd = "";
          timeout_seconds = pos 600;
          available = true;
        },
      )
      ∷ [];
}

selects : select_checks json checked linux ≡ loaded selection
unfolding select_checks stepan.Settings.◌>>=◌ stepan.Settings.is_null stepan.Base.text_append
    stepan.Settings.Checks.parse_checks stepan.Settings.Checks.definitions_of
    stepan.Settings.Checks.parse_check_definition
    stepan.Settings.Checks.parse_declared_check_command stepan.Settings.Checks.program_of
    stepan.Settings.Checks.args_of stepan.Settings.Checks.texts_of stepan.Settings.Checks.env_of
    stepan.Settings.Checks.commands_of stepan.Settings.Checks.definition_of
    stepan.Settings.Checks.valid_check_kind stepan.Settings.Checks.parse_required_checks
    stepan.Settings.Checks.require_available stepan.Settings.Checks.select_all
    stepan.Settings.Checks.select_check stepan.Settings.Checks.key
selects = refl

select_checks-IsReady_example : IsReady json checked linux selection
select_checks-IsReady_example = select_checks-IsReady json checked linux selection selects
