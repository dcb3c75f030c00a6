-- ===== src/Settings/Checks/Runnable.antt =====
-- internal/setting/checks.go: what a selection of checks promises to its caller.
use stepan.Base.{
  ◌≡◌, refl, sym, String, Bool, true, false, ◌&&◌, Option, eq_iff, none, some, List, [], ◌∷◌, ◌==◌,
  ◌!=◌, string_eq, is_empty, lookup, all, ℤ, pos, negsuc, geb, is_positive, int_eq, arith, inl, inr,
  Bool-cases, Option-cases,
}
use stepan.Settings.{
  SettingError, Loaded, loaded, rejected, loaded_before, loaded_value, refuse_if, Raw, Object, Json,
}
use stepan.Settings.Merge.{Configuration}
use stepan.Settings.Checks.{
  Platform, CheckDefinition, SelectedCheck, CheckSelection, valid_check_kind, definition_of,
  definitions_of, parse_checks, parse_required_checks, command_for, select_check, select_all,
  require_available, select_checks,
}

-- A check that can be run: with a program, a positive timeout and a kind that is known.
abbrev pub can_run : SelectedCheck → Bool
can_run check =
    check.available
    && is_positive check.timeout_seconds
    && valid_check_kind check.kind
    && (elim check.command [ none ↦ false | some command ↦ command.program != "" ])

abbrev well_defined : CheckDefinition → Bool
well_defined d = is_positive d.timeout_seconds && valid_check_kind d.kind

nonzero_positive : (n : ℤ) → geb n (pos 0) ≡ true → (n == pos 0) ≡ false → is_positive n ≡ true
nonzero_positive (pos n) h nonzero = ground arith
nonzero_positive (negsuc n) h nonzero = cc

definition_of-well_defined :
    (parsed d : CheckDefinition) → definition_of parsed ≡ loaded d → well_defined d ≡ true
unfolding definition_of
definition_of-well_defined parsed d made = ground (arith, nonzero_positive parsed.timeout_seconds)

definitions_of-well_defined :
    (json : Json) (fields : Object) (ds : List (String × CheckDefinition))
    → definitions_of json fields ≡ loaded ds
    → all (λ (e : String × CheckDefinition). well_defined e.1) ds ≡ true
unfolding definitions_of
definitions_of-well_defined json [] ds made = ground (arith, loaded_value [] ds made)
definitions_of-well_defined json ((name, raw) ∷ rest) ds e0 =
    let (u, named, e1) = loaded_before _ _ ds e0 in
    let (parsed, reads, e2) = loaded_before _ _ ds e1 in
    let (d, defined, e3) = loaded_before _ _ ds e2 in
    let (ds', goes, e4) = loaded_before _ _ ds e3 in
    rw (sym (loaded_value _ ds e4)) (
      rw (definition_of-well_defined parsed d defined)
        (definitions_of-well_defined json rest ds' goes))

-- An available check has the program of its command.
select_check-can_run :
    (name : String) (d : CheckDefinition) (platform : Platform)
    → well_defined d ≡ true
    → (select_check name d platform).available ≡ true
    → can_run (select_check name d platform) ≡ true
unfolding select_check
select_check-can_run name d platform fine there = elim (Option-cases (command_for d platform)) [
  | inl missing ↦ absurd (ground arith)
  | inr (command, found) ↦ ground arith
]

-- The named check of a selection can be run.
abbrev pub runs : List (String × SelectedCheck) → String → Bool
runs checks name = elim (lookup name checks) [ none ↦ false | some check ↦ can_run check ]

lookup-can_run :
    (ds : List (String × CheckDefinition)) (platform : Platform) (name : String)
    (check : SelectedCheck)
    → all (λ (e : String × CheckDefinition). well_defined e.1) ds ≡ true
    → lookup name (select_all ds platform) ≡ some check
    → check.available ≡ true
    → can_run check ≡ true
unfolding select_all
lookup-can_run [] platform name check fine found there = cc
lookup-can_run ((other, d) ∷ ds) platform name check fine found there =
    elim (Bool-cases (other == name)) [
      | inl same ↦
          let chosen : select_check other d platform ≡ check = ground arith in
          rw (← chosen) (select_check-can_run other d platform (ground arith) (rw chosen there))
      | inr differs ↦ lookup-can_run ds platform name check (ground arith) (ground arith) there
    ]

require_available-runs :
    (ds : List (String × CheckDefinition)) (platform : Platform) (required : List String)
    → all (λ (e : String × CheckDefinition). well_defined e.1) ds ≡ true
    → require_available (select_all ds platform) required ≡ loaded tt
    → all (runs (select_all ds platform)) required ≡ true
unfolding require_available
require_available-runs ds platform [] fine ok = refl
require_available-runs ds platform (name ∷ rest) fine ok =
    elim (Option-cases (lookup name (select_all ds platform))) [
      | inl missing ↦ absurd (ground arith)
      | inr (check, found) ↦ elim (Bool-cases check.available) [
        | inr idle ↦ absurd (ground arith)
        | inl there ↦
            let able = lookup-can_run ds platform name check fine found there in
            let others : require_available (select_all ds platform) rest ≡ loaded tt =
              ground arith in
            ground (arith, found, able, require_available-runs ds platform rest fine others)
      ]
    ]

parse_checks-well_defined :
    (json : Json) (raw : Raw) (ds : List (String × CheckDefinition))
    → parse_checks json raw ≡ loaded ds
    → all (λ (e : String × CheckDefinition). well_defined e.1) ds ≡ true
unfolding parse_checks
parse_checks-well_defined json raw ds made = elim (Option-cases (json.object raw)) [
  | inl missing ↦ absurd (ground arith)
  | inr (fields, found) ↦ definitions_of-well_defined json fields ds (ground arith)
]

required-declared :
    (json : Json) (raw : Raw) (required : List String)
    → parse_required_checks json raw ≡ loaded required
    → (json.texts raw ≡ some required) × (is_empty required ≡ false)
unfolding parse_required_checks stepan.Settings.◌>>=◌
required-declared json raw required made = elim (Option-cases (json.texts raw)) [
  | inl missing ↦ absurd (ground arith)
  | inr (names, found) ↦ (ground arith, ground arith)
]

-- The check that a definition gives on a platform.
abbrev pub selected : Platform → String → Option CheckDefinition → Option SelectedCheck
selected platform name definition = elim definition [
  | none ↦ none
  | some d ↦ some (select_check name d platform)
]

lookup-select_all :
    (ds : List (String × CheckDefinition)) (platform : Platform) (name : String)
    → lookup name (select_all ds platform) ≡ selected platform name (lookup name ds)
unfolding select_all
lookup-select_all [] platform name = refl
lookup-select_all ((other, d) ∷ ds) platform name = elim (Bool-cases (other == name)) [
  | inl same ↦ ground (arith, eq_iff other name)
  | inr differs ↦ ground (arith, lookup-select_all ds platform name)
]

-- A selection for the configuration: the required names are all those that it declares, and there is
-- one; the checks are those of its definitions, each with its command for the platform; and every
-- required check can be run.
pub record IsReady (json : Json) (c : Configuration) (platform : Platform) (x : CheckSelection)
    : Type 0 where
  pub definitions : List (String × CheckDefinition)
  pub reads : parse_checks json c.checks ≡ loaded definitions
  pub declared : json.texts c.required_checks ≡ some x.required
  pub nonempty : is_empty x.required ≡ false
  pub checks :
      (name : String) → lookup name x.checks ≡ selected platform name (lookup name definitions)
  pub ready : all (runs x.checks) x.required ≡ true

-- `SelectChecks` where it succeeds: the required checks are all those that the project declares, and
-- there is one; the checks are those of the project's definitions, each as it is selected for the
-- platform; and every required check is one of them, with a command that has a program, a positive
-- timeout and a known kind.
pub select_checks-IsReady :
    (json : Json) (c : Configuration) (platform : Platform) (selection : CheckSelection)
    → select_checks json c platform ≡ loaded selection
    → IsReady json c platform selection
unfolding select_checks
select_checks-IsReady json c platform selection e0 =
    let (ds, reads, e1) = loaded_before _ _ selection e0 in
    let (required, names, e2) = loaded_before _ _ selection e1 in
    let (u, available, e3) = loaded_before _ _ selection e2 in
    let (declared, nonempty) = required-declared json c.required_checks required names in
    rw (sym (loaded_value _ selection e3)) (record {
      definitions = ds;
      reads = reads;
      declared = declared;
      nonempty = nonempty;
      checks = lookup-select_all ds platform;
      ready =
          require_available-runs ds platform required
            (parse_checks-well_defined json c.checks ds reads) available;
    })
