-- ===== src/Llm/Tests.antt =====
-- The provider openai, made from the key of the environment.
use gm_agent.Prelude.{ℕ, true, ◌==◌, ◌≡◌, refl, []}
use gm_agent.Prelude.Result.{value, failed, not_found}
use gm_agent.Config.{provider_env_vars, ProviderOptions, get_active_provider}
use gm_agent.Config.Laws.{HasKey}
use gm_agent.Config.Tests.{floats, getenv, config_of}
use gm_agent.Llm.{Provider, Makers, create_provider, new_provider}
use gm_agent.Llm.Laws.{is_known, new_provider-made}

abbrev silent : Provider ℕ ℕ
silent = record { call = λ req w. (failed not_found, w); call_stream = λ req w. (value [], w) }

abbrev makers : Makers ℕ ℕ
makers = record {
  new_gemini = λ cfg. failed not_found;
  new_openai = λ cfg. silent;
  new_mock = λ text. silent;
}

made : new_provider floats makers getenv (config_of "") ≡ value (silent, "openai")
unfolding new_provider provider_env_vars
made = refl

new_provider-made_example :
    (is_known makers "openai" ≡ true)
    × (opts : ProviderOptions ℕ) × (get_active_provider floats getenv (config_of "")
        ≡ value ("openai", opts))
    × (create_provider makers "openai" opts ≡ value silent)
    × (("" == "") ≡ true → HasKey floats getenv (config_of "") opts)
new_provider-made_example =
    new_provider-made makers floats getenv (config_of "") silent "openai" made
