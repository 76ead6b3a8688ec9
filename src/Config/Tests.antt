-- ===== src/Config/Tests.antt =====
-- Settings for two providers; a number of float64 is one of ℕ.
use gm_agent.Prelude.{ℕ, String, true, false, not, [], ◌∷◌, ◌==◌, ◌≡◌, refl, eqb, if◌then◌else◌}
use gm_agent.Prelude.Integers.{pos}
use gm_agent.Prelude.Result.{value}
use gm_agent.Config.{Floats, ProviderOptions, Config, provider_env_vars, get_active_provider}
use gm_agent.Config.Laws.{HasKey, get_active_provider-HasKey}

abbrev pub floats : Floats ℕ
floats = record {
  zero_float = 0;
  seven_tenths = 7;
  float_is_zero = λ x. eqb x 0;
  is_positive = λ x. not (eqb x 0);
}

abbrev pub gpt : ProviderOptions ℕ
gpt = record {
  api_key = "";
  base_url = "";
  model = "gpt-5";
  project_id = "";
  location = "";
  timeout = pos 3;
  temperature = 0;
  max_tokens = pos 0;
}

-- Only the key of openai is set.
abbrev pub getenv : String → String
getenv name = if name == "OPENAI_API_KEY" then "key" else ""

abbrev pub config_of : String → Config ℕ
config_of active = record {
  active_provider = active;
  log_level = "";
  providers = ("openai", record { options = gpt }) ∷ [];
  security = record {
    auto_approve = false;
    allowed_tools = [];
    allow_file_system = true;
    allow_internet = true;
    workspace_root = ".";
  };
  http = record { enable = false; addr = ""; api_key = "" };
  dev_mode = false;
}

abbrev pub found : ProviderOptions ℕ
found = record gpt { api_key = "key"; base_url = "https://api.openai.com/v1" }

pub detected : get_active_provider floats getenv (config_of "") ≡ value ("openai", found)
unfolding get_active_provider provider_env_vars
detected = refl

-- A provider that is named and configured without a key is taken without the key of the environment.
no_key :
    get_active_provider floats getenv (config_of "openai")
    ≡ value ("openai", record found { api_key = "" })
unfolding get_active_provider
no_key = refl

get_active_provider-HasKey_example : HasKey floats getenv (config_of "") found
get_active_provider-HasKey_example =
    get_active_provider-HasKey floats getenv (config_of "") "openai" found refl detected
