-- ===== src/Config/Laws.antt =====
-- A provider that was found, and not named, has an API key.
use gm_agent.Prelude.{
  String, true, false, some, List, [], ◌∷◌, ◌==◌, ◌≡◌, some-none, sym, ap, ◌∙◌, inl, inr, arith,
  Bool-cases, Option-cases,
}
use gm_agent.Prelude.Dict.{Dict, lookup}
use gm_agent.Prelude.Result.{value, failed-value, value_injective}
use gm_agent.Config.{
  Floats, ProviderOptions, ProviderConfig, Config, provider_env_vars, text_over, first_set,
  merge_options, merge_configured, detect_provider_from_env, env_options, auto_detect,
  first_configured, get_active_provider,
}

text_over-key :
    (base override : String) → (base == "") ≡ false → (text_over base override == "") ≡ false
unfolding text_over
text_over-key base override h = ground arith

some_injective : {A : Type 0} {a b : A} → some a ≡ some b → a ≡ b
some_injective h = cc

module _ {F : Type 0} (floats : Floats F) where
  module _ (getenv : String → String) (cfg : Config F) where
    abbrev pub HasKey : ProviderOptions F → Type 0
    HasKey opts = (opts.api_key == "") ≡ false

    merge_configured-HasKey :
        (id : String) (opts : ProviderOptions F)
        → HasKey opts
        → HasKey (merge_configured floats getenv cfg id opts)
    unfolding merge_configured merge_options
    merge_configured-HasKey id opts key = elim (Option-cases (lookup id cfg.providers)) [
      | inl gone ↦ rw (gone, merge_configured) key
      | inr (p, there) ↦
          rw (there, merge_configured) (text_over-key opts.api_key p.options.api_key key)
    ]

    detect_provider_from_env-HasKey :
        (id : String) (opts : ProviderOptions F)
        → detect_provider_from_env floats getenv cfg id ≡ some opts
        → HasKey opts
    unfolding detect_provider_from_env env_options
    detect_provider_from_env-HasKey id opts h = elim (Option-cases (lookup id provider_env_vars)) [
      | inl gone ↦ absurd (some-none (sym (rw (gone, detect_provider_from_env) at h)))
      | inr (vars, e) ↦ elim (Bool-cases (first_set getenv vars.api_key == "")) [
        | inl no_key ↦ absurd (some-none (sym (rw (e, no_key, detect_provider_from_env) at h)))
        | inr key ↦
            ap (λ (o : ProviderOptions F). o.api_key == "")
              (sym (some_injective (rw (e, key, detect_provider_from_env) at h)))
            ∙ merge_configured-HasKey id
                (env_options floats getenv cfg id vars (first_set getenv vars.api_key)) key
      ]
    ]

    auto_detect-HasKey :
        (ids : List String) (id : String) (opts : ProviderOptions F)
        → auto_detect floats getenv cfg ids ≡ some (id, opts)
        → HasKey opts
    unfolding auto_detect
    auto_detect-HasKey [] id opts h = absurd (some-none (sym h))
    auto_detect-HasKey (first ∷ ids) id opts h =
        elim (Option-cases (detect_provider_from_env floats getenv cfg first)) [
          | inl gone ↦ auto_detect-HasKey ids id opts (rw (gone, auto_detect) at h)
          | inr (found, e) ↦ detect_provider_from_env-HasKey first opts (
              e
              ∙ ap (λ (o : String × ProviderOptions F). some o.1)
                  (some_injective (rw (e, auto_detect) at h)))
        ]

    first_configured-HasKey :
        (ps : Dict (ProviderConfig F)) (id : String) (opts : ProviderOptions F)
        → first_configured floats getenv cfg ps ≡ some (id, opts)
        → HasKey opts
    unfolding first_configured merge_options
    first_configured-HasKey [] id opts h = absurd (some-none (sym h))
    first_configured-HasKey ((name, p) ∷ ps) id opts h =
        elim (Bool-cases (p.options.api_key == "")) [
          | inl no_key ↦ first_configured-HasKey ps id opts (rw (no_key, first_configured) at h)
          | inr key ↦
              ap (λ (o : String × ProviderOptions F). o.1.api_key == "")
                (sym (some_injective (rw (key, first_configured) at h)))
              ∙ key
        ]

    -- Where no provider is named, the provider that GetActiveProvider returns has an API key, in every
    -- order in which the configured providers are visited.
    pub get_active_provider-HasKey :
        (id : String) (opts : ProviderOptions F)
        → (cfg.active_provider == "") ≡ true
        → get_active_provider floats getenv cfg ≡ value (id, opts)
        → HasKey opts
    unfolding get_active_provider
    get_active_provider-HasKey id opts unnamed h =
        elim (Option-cases
          (auto_detect floats getenv cfg ("gemini" ∷ "openai" ∷ "deepseek" ∷ "anthropic" ∷ []))) [
            | inr (found, e) ↦
                auto_detect-HasKey ("gemini" ∷ "openai" ∷ "deepseek" ∷ "anthropic" ∷ []) id opts (
                  e
                  ∙ ap (λ (o : String × ProviderOptions F). some o)
                      (value_injective (rw (unnamed, e, get_active_provider) at h)))
            | inl gone ↦ elim (Option-cases (first_configured floats getenv cfg cfg.providers)) [
              | inr (found, e) ↦ first_configured-HasKey cfg.providers id opts (
                  e
                  ∙ ap (λ (o : String × ProviderOptions F). some o)
                      (value_injective (rw (unnamed, gone, e, get_active_provider) at h)))
              | inl none_left ↦
                  absurd (failed-value (rw (unnamed, gone, none_left, get_active_provider) at h))
            ]
          ]
