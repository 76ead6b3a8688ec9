-- ===== src/Llm/Laws.antt =====
-- Which providers are made, and from which options.
use gm_agent.Prelude.{
  String, Bool, true, false, ◌||◌, ◌≡◌, sym, ap, ◌∙◌, inl, inr, ◌==◌, arith, Bool-cases,
}
use gm_agent.Prelude.Result.{value, failed-value, value_injective, Reply-cases}
use gm_agent.Config.{Floats, ProviderOptions, Config, get_active_provider}
use gm_agent.Config.Laws.{HasKey, get_active_provider-HasKey}
use gm_agent.Llm.{Provider, Makers, create_provider, new_provider}

or-false :
    (a b c d : Bool)
    → (a || (b || (c || d))) ≡ false
    → (a ≡ false) × (b ≡ false) × (c ≡ false) × (d ≡ false)
or-false a b c d h = ground arith

module _ {F W : Type 0} (makers : Makers F W) where
  -- The providers that there are.
  abbrev pub is_known : String → Bool
  is_known id = id == "gemini" || (id == "openai" || (id == "deepseek" || id == "mock"))

  create_provider-is_known :
      (id : String) (opts : ProviderOptions F) (p : Provider F W)
      → create_provider makers id opts ≡ value p
      → is_known id ≡ true
  unfolding create_provider
  create_provider-is_known id opts p h = elim (Bool-cases (is_known id)) [
    | inl known ↦ known
    | inr other ↦
        let (gemini, openai, deepseek, mock) =
          or-false (id == "gemini") (id == "openai") (id == "deepseek") (id == "mock") other in
        elim (Bool-cases (id == "anthropic")) [
          | inl anthropic ↦
              absurd (failed-value (rw (gemini, openai, deepseek, anthropic, create_provider) at h))
          | inr unknown ↦
              absurd
                (failed-value (rw (gemini, openai, deepseek, unknown, mock, create_provider) at h))
        ]
  ]

  -- Where NewProvider returns a provider, its identifier is gemini, openai, deepseek or mock, and it was
  -- made by createProvider from the options of GetActiveProvider; where no provider was named in the
  -- configuration, these have an API key.
  pub new_provider-made :
      (floats : Floats F) (getenv : String → String) (cfg : Config F) (p : Provider F W)
      (id : String)
      → new_provider floats makers getenv cfg ≡ value (p, id)
      → (is_known id ≡ true)
        × (opts : ProviderOptions F) × (get_active_provider floats getenv cfg ≡ value (id, opts))
        × (create_provider makers id opts ≡ value p)
        × ((cfg.active_provider == "") ≡ true → HasKey floats getenv cfg opts)
  unfolding new_provider
  new_provider-made floats getenv cfg p id h =
      elim (Reply-cases (get_active_provider floats getenv cfg)) [
        | inr (x, e) ↦ absurd (failed-value (rw (e, new_provider) at h))
        | inl ((name, opts), e) ↦ elim (Reply-cases (create_provider makers name opts)) [
          | inr (x, fails) ↦ absurd (failed-value (rw (e, fails, new_provider) at h))
          | inl (q, made) ↦
              let same : (q, name) ≡ (p, id) = value_injective (rw (e, made, new_provider) at h) in
              let named : name ≡ id = ap (λ (r : Provider F W × String). r.1) same in
              (
                ap is_known (sym named) ∙ create_provider-is_known name opts q made,
                opts,
                e ∙ ap (λ (i : String). value (i, opts)) named,
                ap (λ (i : String). create_provider makers i opts) (sym named)
                    ∙ made
                    ∙ ap (λ (r : Provider F W × String). value r.0) same,
                λ unnamed. get_active_provider-HasKey floats getenv cfg name opts unnamed e,
              )
        ]
      ]
