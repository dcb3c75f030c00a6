-- ===== src/Settings/Limits.antt =====
-- internal/setting/limits.go: the limits of the loop, with their defaults.
pub mod Positive
use stepan.Base.{
  String, Bool, Option, none, some, List, [], ◌∷◌, string_eq, lookup, ℤ, pos, is_positive,
  if◌then◌else◌,
}
use stepan.Settings.{SettingError, Loaded, loaded, rejected, ◌>>=◌, Json, Object}
use stepan.Settings.Merge.{Configuration}

pub record LoopLimits : Type 0 where
  pub review_rounds : ℤ
  pub required_check_attempts : ℤ
  pub checks_requested : ℤ
  pub brief_clarifications : ℤ
  pub exploration_limit : ℤ
  pub technical_attempts : ℤ
  pub final_review_rounds : ℤ
  pub agent_timeout_seconds : ℤ
  pub explorer_characters : ℤ

abbrev pub default_loop_limits : LoopLimits
default_loop_limits = record {
  review_rounds = pos 3;
  required_check_attempts = pos 3;
  checks_requested = pos 5;
  brief_clarifications = pos 3;
  exploration_limit = pos 10;
  technical_attempts = pos 3;
  final_review_rounds = pos 3;
  agent_timeout_seconds = pos 1800;
  explorer_characters = pos 12000;
}

-- The body of the loop for one limit, with its default.
unfoldable pub resolve_limit : Json → Object → String → ℤ → Loaded ℤ
resolve_limit json limits name default = elim (lookup name limits) [
  | none ↦ loaded default
  | some raw ↦ elim (json.int raw) [
    | none ↦ rejected SettingError.bad_limit
    | some v ↦ if is_positive v then loaded v else rejected SettingError.bad_limit
  ]
]

unfoldable pub resolve_limits : Json → Configuration → Loaded LoopLimits
resolve_limits json c =
    let d = default_loop_limits in
    resolve_limit json c.limits "review_rounds" d.review_rounds >>= λ review_rounds.
    resolve_limit json c.limits "required_check_attempts" d.required_check_attempts
    >>= λ required_check_attempts.
        resolve_limit json c.limits "checks_requested" d.checks_requested >>= λ checks_requested.
        resolve_limit json c.limits "brief_clarifications" d.brief_clarifications
        >>= λ brief_clarifications.
            resolve_limit json c.limits "exploration_limit" d.exploration_limit
            >>= λ exploration_limit.
                resolve_limit json c.limits "technical_attempts" d.technical_attempts
                >>= λ technical_attempts.
                    resolve_limit json c.limits "final_review_rounds" d.final_review_rounds
                    >>= λ final_review_rounds.
                        resolve_limit json c.limits "agent_timeout_seconds" d.agent_timeout_seconds
                        >>= λ agent_timeout_seconds.
                            resolve_limit json c.limits "explorer_characters" d.explorer_characters
                            >>= λ explorer_characters. loaded (record {
                              review_rounds = review_rounds;
                              required_check_attempts = required_check_attempts;
                              checks_requested = checks_requested;
                              brief_clarifications = brief_clarifications;
                              exploration_limit = exploration_limit;
                              technical_attempts = technical_attempts;
                              final_review_rounds = final_review_rounds;
                              agent_timeout_seconds = agent_timeout_seconds;
                              explorer_characters = explorer_characters;
                            })
