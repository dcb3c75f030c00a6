-- ===== src/Settings/Checks.antt =====
-- internal/setting/checks.go: the project's checks, and the commands that a machine can run.
pub mod Runnable
use stepan.Base.{
  String, Bool, true, false, ◌&&◌, ◌||◌, Option, none, some, List, [], ◌∷◌, ◌==◌, not, string_eq,
  is_empty, lookup, all, contains, text_append, ℤ, pos, geb, int_eq, if◌then◌else◌,
}
use stepan.Settings.{
  SettingError, Loaded, loaded, rejected, ◌>>=◌, ◌>>◌, refuse_if, Raw, Object, CheckHead, Json,
  is_null,
}
use stepan.Settings.Merge.{Configuration, strings_of}

abbrev pub default_check_timeout_seconds : ℤ
default_check_timeout_seconds = pos 600

pub record Platform : Type 0 where
  pub os : String
  pub architecture : String

unfoldable pub key : Platform → String
key p = text_append p.os (text_append "/" p.architecture)

pub record CheckCommand : Type 0 where
  pub program : String
  pub args : List String
  pub env : List (String × String)

pub record CheckDefinition : Type 0 where
  pub kind : String
  pub command : Option CheckCommand
  pub platforms : List (String × CheckCommand)
  pub cwd : String
  pub timeout_seconds : ℤ

-- The command is none where Go has the zero value.
pub record SelectedCheck : Type 0 where
  pub name : String
  pub kind : String
  pub command : Option CheckCommand
  pub cwd : String
  pub timeout_seconds : ℤ
  pub available : Bool

pub record CheckSelection : Type 0 where
  pub required : List String
  pub checks : List (String × SelectedCheck)

unfoldable pub valid_check_kind : String → Bool
valid_check_kind kind =
    kind == "build" || kind == "lint" || kind == "static_analysis" || kind == "tests"

unfoldable pub program_of : Json → Object → Loaded String
program_of json fields = elim (lookup "program" fields) [
  | none ↦ rejected SettingError.bad_check
  | some raw ↦ if is_null json raw then rejected SettingError.bad_check else elim (json.text raw) [
    | none ↦ rejected SettingError.bad_check
    | some program ↦ if program == "" then rejected SettingError.bad_check else loaded program
  ]
]

unfoldable pub texts_of : Json → List Raw → Loaded (List String)
texts_of json [] = loaded []
texts_of json (raw ∷ rest) =
    if is_null json raw then rejected SettingError.bad_check else elim (json.text raw) [
      | none ↦ rejected SettingError.bad_check
      | some arg ↦ texts_of json rest >>= λ args. loaded (arg ∷ args)
    ]

unfoldable pub args_of : Json → Object → Loaded (List String)
args_of json fields = elim (lookup "args" fields) [
  | none ↦ rejected SettingError.bad_check
  | some raw ↦ if is_null json raw then rejected SettingError.bad_check else elim (json.array raw) [
    | none ↦ rejected SettingError.bad_check
    | some values ↦ texts_of json values
  ]
]

unfoldable pub env_of : Json → Object → Loaded (List (String × String))
env_of json fields = elim (lookup "env" fields) [
  | none ↦ loaded []
  | some raw ↦
      if is_null json raw then rejected SettingError.bad_check else elim (json.object raw) [
        | none ↦ rejected SettingError.bad_check
        | some values ↦ strings_of json values
      ]
]

unfoldable pub parse_declared_check_command : Json → Raw → Loaded CheckCommand
parse_declared_check_command json raw = elim (json.object raw) [
  | none ↦ rejected SettingError.bad_check
  | some fields ↦ program_of json fields >>= λ program. args_of json fields >>= λ args.
      env_of json fields >>= λ env. loaded (record { program = program; args = args; env = env })
]

-- The loop over the platforms.
unfoldable pub commands_of : Json → Object → Loaded (List (String × CheckCommand))
commands_of json [] = loaded []
commands_of json ((platform, raw) ∷ rest) = parse_declared_check_command json raw >>= λ command.
    commands_of json rest >>= λ commands. loaded ((platform, command) ∷ commands)

abbrev pub command_of : Json → Object → Loaded (Option CheckCommand)
command_of json fields = elim (lookup "command" fields) [
  | none ↦ loaded none
  | some raw ↦ parse_declared_check_command json raw >>= λ command. loaded (some command)
]

abbrev pub platforms_of : Json → Object → Loaded (List (String × CheckCommand))
platforms_of json fields = elim (lookup "platforms" fields) [
  | none ↦ loaded []
  | some raw ↦ elim (json.object raw) [
    | none ↦ rejected SettingError.bad_check
    | some commands ↦ commands_of json commands
  ]
]

unfoldable pub parse_check_definition : Json → Raw → Loaded CheckDefinition
parse_check_definition json raw = elim (json.object raw) [
  | none ↦ rejected SettingError.bad_check
  | some fields ↦ elim (json.check_head raw) [
    | none ↦ rejected SettingError.bad_check
    | some head ↦ command_of json fields >>= λ command. platforms_of json fields >>= λ platforms.
        loaded (record {
          kind = head.kind;
          command = command;
          platforms = platforms;
          cwd = head.cwd;
          timeout_seconds = head.timeout_seconds;
        })
  ]
]

-- The tests of one definition, and the default of its timeout.
unfoldable pub definition_of : CheckDefinition → Loaded CheckDefinition
definition_of d =
    if not (valid_check_kind d.kind)
    then rejected SettingError.bad_check
    else if not (geb d.timeout_seconds (pos 0))
    then rejected SettingError.bad_check
    else if d.timeout_seconds == pos 0
    then loaded (record d { timeout_seconds = default_check_timeout_seconds })
    else loaded d

-- The loop of `parseChecks`.
unfoldable pub definitions_of : Json → Object → Loaded (List (String × CheckDefinition))
definitions_of json [] = loaded []
definitions_of json ((name, raw) ∷ rest) = refuse_if (name == "") SettingError.bad_check >>= λ _.
    parse_check_definition json raw >>= λ parsed.
    definition_of parsed >>= λ d. definitions_of json rest >>= λ ds. loaded ((name, d) ∷ ds)

unfoldable pub parse_checks : Json → Raw → Loaded (List (String × CheckDefinition))
parse_checks json raw = elim (json.object raw) [
  | none ↦ rejected SettingError.bad_check
  | some definitions ↦ definitions_of json definitions
]

unfoldable pub parse_required_checks : Json → Raw → Loaded (List String)
parse_required_checks json raw = elim (json.texts raw) [
  | none ↦ rejected SettingError.bad_check
  | some required ↦
      refuse_if (is_empty required || contains required "") SettingError.bad_check >>= λ _.
      loaded required
]

-- The command of the platform replaces the general one.
abbrev pub command_for : CheckDefinition → Platform → Option CheckCommand
command_for d platform = elim (lookup (key platform) d.platforms) [
  | some command ↦ some command
  | none ↦ d.command
]

abbrev pub selected_with : Option CheckCommand → String → CheckDefinition → SelectedCheck
selected_with command name d = record {
  name = name;
  kind = d.kind;
  command = command;
  cwd = d.cwd;
  timeout_seconds = d.timeout_seconds;
  available = elim command [ none ↦ false | some _ ↦ true ];
}

unfoldable pub select_check : String → CheckDefinition → Platform → SelectedCheck
select_check name d platform = elim (command_for d platform) [
  | none ↦ selected_with none name d
  | some command ↦
      if command.program == ""
      then selected_with none name d
      else selected_with (some command) name d
]

unfoldable pub select_all :
    List (String × CheckDefinition) → Platform → List (String × SelectedCheck)
select_all [] platform = []
select_all ((name, d) ∷ rest) platform =
    (name, select_check name d platform) ∷ select_all rest platform

-- The loop over the required names.
unfoldable pub require_available : List (String × SelectedCheck) → List String → Loaded (Unit {0})
require_available checks [] = loaded tt
require_available checks (name ∷ rest) = elim (lookup name checks) [
  | none ↦ rejected SettingError.unknown_check
  | some check ↦
      if not check.available
      then rejected SettingError.unavailable_check
      else require_available checks rest
]

unfoldable pub select_checks : Json → Configuration → Platform → Loaded CheckSelection
select_checks json c platform = parse_checks json c.checks >>= λ definitions.
    parse_required_checks json c.required_checks >>= λ required.
    require_available (select_all definitions platform) required >>= λ _.
    loaded (record { required = required; checks = select_all definitions platform })
