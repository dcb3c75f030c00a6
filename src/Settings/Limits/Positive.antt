-- ===== src/Settings/Limits/Positive.antt =====
-- internal/setting/limits.go: every effective limit is positive.
use stepan.Base.{
  ◌≡◌, ◌⊎◌, refl, String, true, none, some, List, string_eq, lookup, ℤ, is_positive, arith, inl,
  inr, sym, Option-cases,
}
use stepan.Settings.{loaded, loaded_before, loaded_value, Json, Object}
use stepan.Settings.Merge.{Configuration}
use stepan.Settings.Limits.{LoopLimits, default_loop_limits, resolve_limit, resolve_limits}

-- A limit is positive, and it is the one that the settings declare or, where they declare none, the
-- default.
pub record Effective (json : Json) (limits : Object) (name : String) (default v : ℤ) : Type 0 where
  pub positive : is_positive v ≡ true
  pub declared :
      ((lookup name limits ≡ none) × (v ≡ default))
      ⊎ ((raw : List _) × (lookup name limits ≡ some raw) × (json.int raw ≡ some v))

resolve_limit-Effective :
    (json : Json) (limits : Object) (name : String) (default v : ℤ)
    → is_positive default ≡ true
    → resolve_limit json limits name default ≡ loaded v
    → Effective json limits name default v
unfolding resolve_limit
resolve_limit-Effective json limits name default v fine ok =
    elim (Option-cases (lookup name limits)) [
      | inl missing ↦ record { positive = ground arith; declared = inl (missing, ground arith) }
      | inr (raw, found) ↦ elim (Option-cases (json.int raw)) [
        | inl bad ↦ absurd (ground arith)
        | inr (w, read) ↦ record {
          positive = ground arith;
          declared = inr (raw, found, ground arith);
        }
      ]
    ]

-- Every limit of a configuration, after its defaults.
pub record AllEffective (json : Json) (c : Configuration) (l : LoopLimits) : Type 0 where
  pub review_rounds :
      Effective json c.limits "review_rounds" default_loop_limits.review_rounds l.review_rounds
  pub required_check_attempts :
      Effective json c.limits "required_check_attempts" default_loop_limits.required_check_attempts
        l.required_check_attempts
  pub checks_requested :
      Effective json c.limits "checks_requested" default_loop_limits.checks_requested
        l.checks_requested
  pub brief_clarifications :
      Effective json c.limits "brief_clarifications" default_loop_limits.brief_clarifications
        l.brief_clarifications
  pub exploration_limit :
      Effective json c.limits "exploration_limit" default_loop_limits.exploration_limit
        l.exploration_limit
  pub technical_attempts :
      Effective json c.limits "technical_attempts" default_loop_limits.technical_attempts
        l.technical_attempts
  pub final_review_rounds :
      Effective json c.limits "final_review_rounds" default_loop_limits.final_review_rounds
        l.final_review_rounds
  pub agent_timeout_seconds :
      Effective json c.limits "agent_timeout_seconds" default_loop_limits.agent_timeout_seconds
        l.agent_timeout_seconds
  pub explorer_characters :
      Effective json c.limits "explorer_characters" default_loop_limits.explorer_characters
        l.explorer_characters

-- `ResolveLimits` where it succeeds: every limit is positive, and it is the one that the configuration
-- declares under its name, or the default where it declares none.
pub resolve_limits-AllEffective :
    (json : Json) (c : Configuration) (l : LoopLimits)
    → resolve_limits json c ≡ loaded l
    → AllEffective json c l
unfolding resolve_limits
resolve_limits-AllEffective json c l e0 =
    let (review_rounds, ok0, e1) = loaded_before _ _ l e0 in
    let (required_check_attempts, ok1, e2) = loaded_before _ _ l e1 in
    let (checks_requested, ok2, e3) = loaded_before _ _ l e2 in
    let (brief_clarifications, ok3, e4) = loaded_before _ _ l e3 in
    let (exploration_limit, ok4, e5) = loaded_before _ _ l e4 in
    let (technical_attempts, ok5, e6) = loaded_before _ _ l e5 in
    let (final_review_rounds, ok6, e7) = loaded_before _ _ l e6 in
    let (agent_timeout_seconds, ok7, e8) = loaded_before _ _ l e7 in
    let (explorer_characters, ok8, e9) = loaded_before _ _ l e8 in
    let same = loaded_value _ l e9 in
    rw (sym same) (record {
      review_rounds = resolve_limit-Effective json c.limits _ _ review_rounds refl ok0;
      required_check_attempts =
          resolve_limit-Effective json c.limits _ _ required_check_attempts refl ok1;
      checks_requested = resolve_limit-Effective json c.limits _ _ checks_requested refl ok2;
      brief_clarifications =
          resolve_limit-Effective json c.limits _ _ brief_clarifications refl ok3;
      exploration_limit = resolve_limit-Effective json c.limits _ _ exploration_limit refl ok4;
      technical_attempts = resolve_limit-Effective json c.limits _ _ technical_attempts refl ok5;
      final_review_rounds = resolve_limit-Effective json c.limits _ _ final_review_rounds refl ok6;
      agent_timeout_seconds =
          resolve_limit-Effective json c.limits _ _ agent_timeout_seconds refl ok7;
      explorer_characters = resolve_limit-Effective json c.limits _ _ explorer_characters refl ok8;
    })
