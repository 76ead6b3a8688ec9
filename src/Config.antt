-- ===== src/Config.antt =====
-- packages/agent/pkg/config/config.go: the settings, and how GetActiveProvider finds a provider and its
-- options. `F` stands for float64; the environment is a function, with "" for a variable that is not
-- set.
pub mod Laws
pub mod Tests
use gm_agent.Prelude.{
  ℕ, String, Bool, true, false, Option, none, some, List, [], ◌∷◌, ◌==◌, ◌<+>◌, if◌then◌else◌,
}
use gm_agent.Prelude.Dict.{Dict, lookup}
use gm_agent.Prelude.Integers.{ℤ, pos, is_zero}
use gm_agent.Prelude.Result.{Reply, value, failed, message, wrap}
use gm_agent.Tool.Policy.{SecurityConfig}

-- The numbers of float64, and the tests that the source has.
pub record Floats (F : Type 0) : Type 0 where
  pub zero_float : F
  pub seven_tenths : F
  pub float_is_zero : F → Bool
  pub is_positive : F → Bool

pub record ProviderOptions (F : Type 0) : Type 0 where
  pub api_key : String
  pub base_url : String
  pub model : String
  pub project_id : String
  pub location : String
  pub timeout : ℤ
  pub temperature : F
  pub max_tokens : ℤ

pub record ProviderConfig (F : Type 0) : Type 0 where
  pub options : ProviderOptions F

pub record HttpConfig : Type 0 where
  pub enable : Bool
  pub addr : String
  pub api_key : String

pub record Config (F : Type 0) : Type 0 where
  pub active_provider : String
  pub log_level : String
  pub providers : Dict (ProviderConfig F)
  pub security : SecurityConfig
  pub http : HttpConfig
  pub dev_mode : Bool

pub record EnvVars : Type 0 where
  pub api_key : List String
  pub base_url : List String
  pub model : List String

unfoldable pub provider_env_vars : Dict EnvVars
provider_env_vars =
    (
      "gemini",
      record {
        api_key = "GEMINI_API_KEY" ∷ "GOOGLE_API_KEY" ∷ [];
        base_url = [];
        model = "GEMINI_MODEL" ∷ [];
      },
    )
    ∷ (
      "openai",
      record {
        api_key = "OPENAI_API_KEY" ∷ [];
        base_url = "OPENAI_API_BASE" ∷ "OPENAI_BASE_URL" ∷ [];
        model = "OPENAI_MODEL" ∷ [];
      },
    )
    ∷ (
      "anthropic",
      record { api_key = "ANTHROPIC_API_KEY" ∷ []; base_url = []; model = "ANTHROPIC_MODEL" ∷ [] },
    )
    ∷ (
      "deepseek",
      record { api_key = "DEEPSEEK_API_KEY" ∷ []; base_url = []; model = "DEEPSEEK_MODEL" ∷ [] },
    )
    ∷ []

-- `if s != "" { result = s }`
unfoldable pub text_over : String → String → String
text_over base override = if override == "" then base else override

unfoldable pub int_over : ℤ → ℤ → ℤ
unfolding is_zero
int_over base override = if is_zero override then base else override

-- The first variable that is set, or "".
unfoldable pub first_set : (String → String) → List String → String
first_set getenv [] = ""
first_set getenv (name ∷ names) =
    let rest = first_set getenv names in if getenv name == "" then rest else getenv name

module _ {F : Type 0} (floats : Floats F) where
  -- The zero value, with a base URL and a model.
  unfoldable pub with_model : String → String → ProviderOptions F
  with_model base_url model = record {
    api_key = "";
    base_url = base_url;
    model = model;
    project_id = "";
    location = "";
    timeout = pos 0;
    temperature = floats.zero_float;
    max_tokens = pos 0;
  }

  -- A key that is missing reads as the zero value.
  unfoldable pub provider_defaults : String → ProviderOptions F
  unfolding with_model
  provider_defaults id =
      if id == "gemini"
      then with_model "" "gemini-2.0-flash"
      else if id == "openai"
      then with_model "https://api.openai.com/v1" "gpt-4o"
      else if id == "deepseek"
      then with_model "https://api.deepseek.com" "deepseek-chat"
      else if id == "anthropic"
      then with_model "" "claude-sonnet-4-20250514"
      else with_model "" ""

  unfoldable pub temperature_over : F → F → F
  temperature_over base override = if floats.is_positive override then override else base

  unfoldable pub merge_options : ProviderOptions F → ProviderOptions F → ProviderOptions F
  unfolding text_over int_over temperature_over
  merge_options base override = record {
    api_key = text_over base.api_key override.api_key;
    base_url = text_over base.base_url override.base_url;
    model = text_over base.model override.model;
    project_id = text_over base.project_id override.project_id;
    location = text_over base.location override.location;
    timeout = int_over base.timeout override.timeout;
    temperature = temperature_over base.temperature override.temperature;
    max_tokens = int_over base.max_tokens override.max_tokens;
  }

  module _ (getenv : String → String) (cfg : Config F) where
    -- The settings of the file over those of the environment.
    unfoldable pub merge_configured : String → ProviderOptions F → ProviderOptions F
    unfolding lookup merge_options
    merge_configured id opts = elim (lookup id cfg.providers) [
      | none ↦ opts
      | some p ↦ merge_options opts p.options
    ]

    -- The options that the variables give with a key; each part unless it is "".
    unfoldable pub env_options : String → EnvVars → String → ProviderOptions F
    unfolding first_set provider_defaults text_over
    env_options id vars key =
        let defaults = provider_defaults id in
        record defaults {
          api_key = key;
          base_url = text_over defaults.base_url (first_set getenv vars.base_url);
          model = text_over defaults.model (first_set getenv vars.model);
        }

    -- `none`: not found. A round of the loop of GetActiveProvider has the same body.
    unfoldable pub detect_provider_from_env : String → Option (ProviderOptions F)
    unfolding lookup first_set env_options merge_configured
    detect_provider_from_env id = elim (lookup id provider_env_vars) [
      | none ↦ none
      | some vars ↦
          let key = first_set getenv vars.api_key in
          if key == "" then none else some (merge_configured id (env_options id vars key))
    ]

    unfoldable pub auto_detect : List String → Option (String × ProviderOptions F)
    unfolding detect_provider_from_env
    auto_detect [] = none
    auto_detect (id ∷ ids) =
        let rest = auto_detect ids in
        elim (detect_provider_from_env id) [ none ↦ rest | some opts ↦ some (id, opts) ]

    -- Go visits a map in any order: the list is the order of this visit.
    unfoldable pub first_configured : Dict (ProviderConfig F) → Option (String × ProviderOptions F)
    unfolding provider_defaults merge_options
    first_configured [] = none
    first_configured ((id, p) ∷ ps) =
        let rest = first_configured ps in
        if p.options.api_key == ""
        then rest
        else some (id, merge_options (provider_defaults id) p.options)

    -- With a provider that is named.
    unfoldable pub explicit_provider : String → Reply (String × ProviderOptions F)
    unfolding lookup merge_options provider_defaults detect_provider_from_env
    explicit_provider id = elim (lookup id cfg.providers) [
      | some p ↦ value (id, merge_options (provider_defaults id) p.options)
      | none ↦ elim (detect_provider_from_env id) [
        | some opts ↦ value (id, opts)
        | none ↦ failed (message ("active provider \"" <+> id <+> "\" not configured"))
      ]
    ]

    unfoldable pub get_active_provider : Reply (String × ProviderOptions F)
    unfolding explicit_provider auto_detect first_configured
    get_active_provider =
        if cfg.active_provider == ""
        then elim (auto_detect ("gemini" ∷ "openai" ∷ "deepseek" ∷ "anthropic" ∷ [])) [
          | some found ↦ value found
          | none ↦ elim (first_configured cfg.providers) [
            | some found ↦ value found
            | none ↦ failed (message "no provider configured or detected")
          ]
        ]
        else explicit_provider cfg.active_provider

-- The configuration that Load starts from.
unfoldable pub initial_config : {F : Type 0} → Config F
initial_config = record {
  active_provider = "";
  log_level = "";
  providers = [];
  security = record {
    auto_approve = false;
    allowed_tools = [];
    allow_file_system = true;
    allow_internet = true;
    workspace_root = ".";
  };
  http = record { enable = false; addr = ":8080"; api_key = "" };
  dev_mode = false;
}

-- `process`: envconfig.Process with the prefix GM, after the files were loaded into the environment.
unfoldable pub load : {F : Type 0} → (Config F → Reply (Config F)) → Reply (Config F)
unfolding initial_config
load process = elim (process initial_config) [
  | failed x ↦ failed (wrap "failed to process env vars" x)
  | value cfg ↦ value (record cfg {
    http = record cfg.http { addr = if cfg.http.addr == "" then ":8080" else cfg.http.addr };
  })
]
