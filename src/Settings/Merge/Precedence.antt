-- ===== src/Settings/Merge/Precedence.antt =====
-- internal/setting/merge.go: which of the two settings counts.
use stepan.Base.{
  ◌≡◌, refl, sym, String, Bool, true, false, Option, none, some, List, [], ◌∷◌, ◌==◌, not,
  string_eq, eq_iff, lookup, insert, any, all, arith, inl, inr, is_empty, if◌then◌else◌,
  Option-cases,
}
use stepan.Settings.{
  SettingError, loaded, loaded_before, loaded_value, refuse_if, Raw, Object, Json, is_null, has,
  Sources,
}
use stepan.Settings.Merge.{
  raw_object, Configuration, Section, parse_section, reject_user_project_fields, project_fields,
  overlay, delete, overlay_profiles, validate_role_profiles, merge, default_role_profiles,
  role_profile, validate_loop_roles,
}

lookup-insert :
    {A : Type 0} (name other : String) (x : A) (m : List (String × A))
    → lookup other (insert name x m) ≡ (if name == other then some x else lookup other m)
lookup-insert name other x [] = refl
lookup-insert name other x ((k, y) ∷ m) =
    ground (arith, lookup-insert name other x m, eq_iff k name, eq_iff k other, eq_iff name other)

lookup-delete :
    {A : Type 0} (name other : String) (m : List (String × A))
    → lookup other (delete name m) ≡ (if name == other then none else lookup other m)
unfolding delete
lookup-delete name other [] = ground arith
lookup-delete name other ((k, y) ∷ m) =
    ground (arith, lookup-delete name other m, eq_iff k name, eq_iff k other, eq_iff name other)

-- The project's entry, where it has one, and the user's.
abbrev pub prefer : {A : Type 0} → Option A → Option A → Option A
prefer project user = elim project [ none ↦ user | some x ↦ some x ]

-- A null profile of the project takes the user's away.
abbrev pub prefer_profile : Json → Option Raw → Option Raw → Option Raw
prefer_profile json project user = elim project [
  | none ↦ user
  | some raw ↦ if is_null json raw then none else some raw
]

lookup-overlay :
    {A : Type 0} (p m : List (String × A)) (name : String)
    → lookup name (overlay p m) ≡ prefer (lookup name p) (lookup name m)
unfolding overlay
lookup-overlay [] m name = refl
lookup-overlay ((k, x) ∷ p) m name =
    ground (arith, lookup-insert k name x (overlay p m), lookup-overlay p m name)

lookup-overlay_profiles :
    (json : Json) (p m : Object) (name : String)
    → lookup name (overlay_profiles json p m) ≡ prefer_profile json (lookup name p) (lookup name m)
unfolding overlay_profiles
lookup-overlay_profiles json [] m name = refl
lookup-overlay_profiles json ((k, raw) ∷ p) m name = ground (
  arith,
  lookup-insert k name raw (overlay_profiles json p m),
  lookup-delete k name (overlay_profiles json p m),
  lookup-overlay_profiles json p m name,
)

all-lookup :
    {A : Type 0} (p : A → Bool) (m : List (String × A)) (name : String) (x : A)
    → all (λ (e : String × A). p e.1) m ≡ true
    → lookup name m ≡ some x
    → p x ≡ true
all-lookup p [] name x h found = cc
all-lookup p ((k, y) ∷ m) name x h found = ground (arith, all-lookup p m name x)

-- What a configuration has of the sections and of the profiles that the sources declare.
pub record Merged (json : Json) (s : Sources) (c : Configuration) : Type 0 where
  pub user : Section
  pub project : Section
  pub user_profiles : Object
  pub project_profiles : Object
  pub reads_user : parse_section json s.user ≡ loaded user
  pub reads_project : parse_section json s.project ≡ loaded project
  pub reads_user_profiles :
      raw_object json true s.user_profiles (not (is_empty s.user_profiles)) false
      ≡ loaded user_profiles
  pub reads_project_profiles :
      raw_object json true s.project_profiles (not (is_empty s.project_profiles)) true
      ≡ loaded project_profiles
  pub project_only :
      (c.checks ≡ project.checks)
      × (c.required_checks ≡ project.required_checks)
      × (c.rules_file ≡ project.rules_file)
      × (c.main_branch ≡ project.main_branch)
  pub roles :
      (role : String)
      → lookup role c.roles ≡ prefer (lookup role project.roles) (lookup role user.roles)
  pub limits :
      (name : String)
      → lookup name c.limits ≡ prefer (lookup name project.limits) (lookup name user.limits)
  pub profiles :
      (name : String)
      → lookup name c.profiles
        ≡ prefer_profile json (lookup name project_profiles) (lookup name user_profiles)
  pub reserved : any (λ name. has name user.present) project_fields ≡ false
  pub complete :
      (role profile : String) → lookup role c.roles ≡ some profile → has profile c.profiles ≡ true

refused_before : (b : Bool) (e : SettingError) → refuse_if b e ≡ loaded tt → b ≡ false
refused_before true e h = cc
refused_before false e h = refl

granted : (b : Bool) → not b ≡ false → b ≡ true
granted true h = refl
granted false h = cc

-- `Merge` where it succeeds: a role and a limit are the project's, where it has them, and otherwise the
-- user's; a profile is the one that the project's object of profiles declares, the one of the user's, or none
-- where the project's is null; the checks, the required checks, the rules file and the main branch are
-- the project's; the user sets no field of the project, and every role that is assigned names a
-- profile that is there.
pub merge-Merged :
    (json : Json) (s : Sources) (c : Configuration) → merge json s ≡ loaded c → Merged json s c
unfolding merge validate_role_profiles reject_user_project_fields
merge-Merged json s c e0 =
    let (user, reads_user, e1) = loaded_before _ _ c e0 in
    let (project, reads_project, e2) = loaded_before _ _ c e1 in
    let (u1, reserved, e3) = loaded_before _ _ c e2 in
    let (user_profiles, reads_up, e4) = loaded_before _ _ c e3 in
    let (project_profiles, reads_pp, e5) = loaded_before _ _ c e4 in
    let (u2, complete, e6) = loaded_before _ _ c e5 in
    let same = loaded_value _ c e6 in
    rw (sym same) (record {
      user = user;
      project = project;
      user_profiles = user_profiles;
      project_profiles = project_profiles;
      reads_user = reads_user;
      reads_project = reads_project;
      reads_user_profiles = reads_up;
      reads_project_profiles = reads_pp;
      project_only = (refl, refl, refl, refl);
      roles = lookup-overlay project.roles user.roles;
      limits = lookup-overlay project.limits user.limits;
      profiles = lookup-overlay_profiles json project_profiles user_profiles;
      reserved = refused_before _ _ reserved;
      complete = λ role profile found.
          all-lookup (λ name. has name (overlay_profiles json project_profiles user_profiles))
            (overlay project.roles user.roles) role profile
            (granted _ (refused_before _ _ complete)) found;
    })

-- The profiles that the loop's roles have by default.
abbrev pub default_profiles : List String
default_profiles = "low" ∷ "medium" ∷ "high" ∷ "ultra" ∷ []

role_profile-has :
    (json : Json) (s : Sources) (c : Configuration)
    → Merged json s c
    → (role default : String) → has default c.profiles ≡ true
    → lookup role default_role_profiles ≡ some default
    → has (role_profile c role) c.profiles ≡ true
unfolding role_profile
role_profile-has json s c holds role default there falls =
    elim (Option-cases (lookup role c.roles)) [
      | inl missing ↦ rw (missing, role_profile) (rw falls there)
      | inr (profile, found) ↦ rw (found, role_profile) (holds.complete role profile found)
    ]

-- A configuration that `Merge` has made, with the four default profiles in it, can start a loop: each
-- role has a profile, its own or its default.
pub merge-validate_loop_roles :
    (json : Json) (s : Sources) (c : Configuration)
    → merge json s ≡ loaded c
    → all (λ name. has name c.profiles) default_profiles ≡ true
    → validate_loop_roles c ≡ loaded tt
unfolding validate_loop_roles
merge-validate_loop_roles json s c ok there =
    let holds = merge-Merged json s c ok in
    let low : has "low" c.profiles ≡ true = ground arith in
    let medium : has "medium" c.profiles ≡ true = ground arith in
    let high : has "high" c.profiles ≡ true = ground arith in
    let ultra : has "ultra" c.profiles ≡ true = ground arith in
    let orchestrator = role_profile-has json s c holds "orchestrator" "medium" medium refl in
    let briefer = role_profile-has json s c holds "briefer" "high" high refl in
    let implementer = role_profile-has json s c holds "implementer" "medium" medium refl in
    let reviewer = role_profile-has json s c holds "task_reviewer" "high" high refl in
    let explorer = role_profile-has json s c holds "explorer" "low" low refl in
    let final = role_profile-has json s c holds "final_reviewer" "ultra" ultra refl in
    rw (orchestrator, briefer, implementer, reviewer, explorer, final) refl
