-- ===== src/Settings/Profile/Complete.antt =====
-- internal/setting/profile.go: a profile that resolves is complete.
use stepan.Base.{
  ◌⊎◌, none, some, ◌≡◌, refl, sym, String, false, string_eq, is_blank, lookup, arith, inl, inr,
  Option-cases, Bool-cases,
}
use stepan.Settings.{SettingError, loaded, loaded_before, loaded_value, Raw, Object, Json}
use stepan.Settings.Merge.{Configuration, role_profile}
use stepan.Settings.Profile.{
  RuntimeProfile, text_of, required_profile_string, reasoning_of, profile_of,
  decode_runtime_profile, resolve_profile, resolve_role_profile,
}

-- The profile has the name it was asked for, and a provider and a model.
pub record IsComplete (name : String) (p : RuntimeProfile) : Type 0 where
  pub named : p.name ≡ name
  pub provider : is_blank p.provider ≡ false
  pub model : is_blank p.model ≡ false

-- The field has this text.
abbrev pub Says : Json → String → Object → String → Type 0
Says json name fields text =
    (raw : Raw) × (lookup name fields ≡ some raw) × (json.text raw ≡ some text)

-- What the profile has of the object that the configuration declares under its name: the provider and
-- the model, and a reasoning that is not blank or, where none is declared, the empty one.
pub record IsDeclared (json : Json) (c : Configuration) (name : String) (p : RuntimeProfile)
    : Type 0 where
  pub raw : Raw
  pub fields : Object
  pub declared : lookup name c.profiles ≡ some raw
  pub reads : json.object raw ≡ some fields
  pub provider : Says json "provider" fields p.provider
  pub model : Says json "model" fields p.model
  pub reasoning :
      ((lookup "reasoning" fields ≡ none) × (p.reasoning ≡ ""))
      ⊎ ((is_blank p.reasoning ≡ false) × Says json "reasoning" fields p.reasoning)

text_of-filled :
    (json : Json) (raw : Raw) (e : SettingError) (t : String)
    → text_of json raw e ≡ loaded t
    → (is_blank t ≡ false) × (json.text raw ≡ some t)
text_of-filled json raw e t ok = elim (Option-cases (json.text raw)) [
  | inl missing ↦ absurd (ground arith)
  | inr (text, found) ↦ elim (Bool-cases (is_blank text)) [
    | inl blank ↦ absurd (ground arith)
    | inr filled ↦ (ground arith, ground arith)
  ]
]

required-filled :
    (json : Json) (name : String) (fields : Object) (t : String)
    → required_profile_string json name fields ≡ loaded t
    → (is_blank t ≡ false) × Says json name fields t
unfolding required_profile_string
required-filled json name fields t ok = elim (Option-cases (lookup name fields)) [
  | inl missing ↦ absurd (ground arith)
  | inr (raw, found) ↦
      let (filled, reads) = text_of-filled json raw SettingError.bad_profile t (ground arith) in
      (filled, (raw, found, reads))
]

reasoning-filled :
    (json : Json) (fields : Object) (t : String)
    → reasoning_of json fields ≡ loaded t
    → ((lookup "reasoning" fields ≡ none) × (t ≡ ""))
      ⊎ ((is_blank t ≡ false) × Says json "reasoning" fields t)
reasoning-filled json fields t ok = elim (Option-cases (lookup "reasoning" fields)) [
  | inl missing ↦ inl (missing, ground arith)
  | inr (raw, found) ↦
      let (filled, reads) = text_of-filled json raw SettingError.bad_profile t (ground arith) in
      inr (filled, (raw, found, reads))
]

module _ (json : Json) (c : Configuration) (name : String) (raw : Raw) (fields : Object)
    (declared : lookup name c.profiles ≡ some raw) (reads : json.object raw ≡ some fields) where
  profile_of-IsDeclared :
      (p : RuntimeProfile)
      → profile_of json name fields ≡ loaded p
      → IsComplete name p × IsDeclared json c name p
  unfolding profile_of
  profile_of-IsDeclared p ok =
      let (provider, reads_provider, e1) = loaded_before _ _ p ok in
      let (model, reads_model, e2) = loaded_before _ _ p e1 in
      let (reasoning, reads_reasoning, e3) = loaded_before _ _ p e2 in
      let (filled_provider, says_provider) =
        required-filled json "provider" fields provider reads_provider in
      let (filled_model, says_model) = required-filled json "model" fields model reads_model in
      rw (sym (loaded_value _ p e3)) (
        record { named = refl; provider = filled_provider; model = filled_model },
        record {
          raw = raw;
          fields = fields;
          declared = declared;
          reads = reads;
          provider = says_provider;
          model = says_model;
          reasoning = reasoning-filled json fields reasoning reads_reasoning;
        },
      )

-- `ResolveRoleProfile` where it succeeds: the configuration declares a profile under the name that the
-- role has, by assignment or by default, and the result has that name, the provider and the model that
-- are declared, which are not blank, and the reasoning that is declared, if one is.
pub resolve_role_profile-IsDeclared :
    (json : Json) (c : Configuration) (role : String) (p : RuntimeProfile)
    → resolve_role_profile json c role ≡ loaded p
    → IsComplete (role_profile c role) p × IsDeclared json c (role_profile c role) p
unfolding resolve_role_profile resolve_profile decode_runtime_profile
resolve_role_profile-IsDeclared json c role p ok =
    elim (Option-cases (lookup (role_profile c role) c.profiles)) [
      | inl missing ↦ absurd (ground arith)
      | inr (raw, found) ↦ elim (Option-cases (json.object raw)) [
        | inl broken ↦ absurd (ground arith)
        | inr (fields, reads) ↦
            profile_of-IsDeclared json c (role_profile c role) raw fields found reads p
              (ground arith)
      ]
    ]
