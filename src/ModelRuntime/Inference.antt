-- ===== src/ModelRuntime/Inference.antt =====
-- The inference engine: khazar/components/model-runtime/inference/inference.c.
use khazar_os.Common.{
  ℕ, ◌+◌, ◌/◌, Bool, true, false, ◌&&◌, Option, none, some, List, [], ◌∷◌, ◌++◌, map, ltb,
  if◌then◌else◌, length, ℤ, pos, ltb_ℤ,
}
use khazar_os.CString.{Bytes, lit, str_eq, strncpy, strstr, is_some, contains, tolower}
use khazar_os.Common.{first_max}
use khazar_os.ModelRuntime.Protocol.{InferenceRequest, InferenceResponse}

pub data InferenceBackend : Type 0 where
  inference_backend_none inference_backend_llamacpp inference_backend_mock : InferenceBackend

pub data ModelState : Type 0 where
  model_state_unloaded model_state_loading model_state_loaded model_state_error : ModelState

-- `struct inference_engine`
pub record InferenceEngine : Type 0 where
  pub model_path : Bytes
  pub backend : InferenceBackend
  pub state : ModelState
  pub context_size : ℤ
  pub num_threads : ℤ
  pub model_name : Bytes
  pub loaded_at : ℕ

-- A template, split at its two bars.
pub record Template : Type 0 where
  pub intent_str : Bytes
  pub target_str : Bytes
  pub action_str : Bytes

abbrev template : Bytes → Bytes → Bytes → Template
template i t a = record { intent_str = i; target_str = t; action_str = a }

abbrev pub mock_templates : List Template
mock_templates =
    template (lit "open_application") (lit "firefox") (lit "aç")
    ∷ template (lit "open_application") (lit "chromium") (lit "aç")
    ∷ template (lit "open_application") (lit "telegram") (lit "aç")
    ∷ template (lit "open_application") (lit "vlc") (lit "aç")
    ∷ template (lit "open_application") (lit "spotify") (lit "aç")
    ∷ template (lit "open_application") (lit "discord") (lit "aç")
    ∷ template (lit "open_application") (lit "gimp") (lit "aç")
    ∷ template (lit "open_application") (lit "blender") (lit "aç")
    ∷ template (lit "open_application") (lit "obs") (lit "aç")
    ∷ template (lit "install_package") (lit "steam") (lit "quraşdır")
    ∷ template (lit "install_package") (lit "vlc") (lit "quraşdır")
    ∷ template (lit "install_package") (lit "discord") (lit "quraşdır")
    ∷ template (lit "remove_package") (lit "steam") (lit "sil")
    ∷ template (lit "search_package") (lit "vlc") (lit "ara")
    ∷ template (lit "system_shutdown") [] (lit "söndür")
    ∷ template (lit "system_reboot") [] (lit "yenidən başlat")
    ∷ template (lit "system_lock") [] (lit "kilidlə")
    ∷ template (lit "system_suspend") [] (lit "yuxu")
    ∷ template (lit "network_enable") (lit "wifi") (lit "aç")
    ∷ template (lit "network_disable") (lit "wifi") (lit "bağla")
    ∷ template (lit "volume_up") [] (lit "artır")
    ∷ template (lit "volume_down") [] (lit "azalt")
    ∷ template (lit "volume_mute") [] (lit "səssiz")
    ∷ template (lit "brightness_up") [] (lit "artır")
    ∷ template (lit "brightness_down") [] (lit "azalt")
    ∷ template (lit "screenshot") [] (lit "çək")
    ∷ template (lit "file_open") (lit "documents") (lit "aç")
    ∷ template (lit "file_search") (lit "config") (lit "tap")
    ∷ template (lit "system_update") [] (lit "yenilə")
    ∷ template (lit "process_kill") (lit "firefox") (lit "bağla")
    ∷ []

-- if (strstr(query_lower, part) && part[0]) score += points
unfoldable pub points_for : Bytes → Bytes → ℕ → ℕ
unfolding strstr is_some
points_for query part points = if contains query part && ltb 0 (length part) then points else 0

unfoldable pub score : Bytes → Template → ℤ
unfolding points_for strstr is_some
score query t = pos (
    points_for query t.target_str 3
    + (points_for query t.action_str 2 + (if contains query t.intent_str then 1 else 0)))

-- The search: the first template of the highest score, if that is not 0.
unfoldable pub best_template : Bytes → Option Template
unfolding first_max score tolower
best_template prompt =
    let query_lower = map tolower (strncpy 4095 prompt) in
    first_max (λ t. true) (score query_lower) none (pos 0) mock_templates

unfoldable pub generated : Option Template → Bytes
generated none = lit "{\"intent\":\"unknown\",\"confidence\":0.0}"
generated (some t) =
    lit "{\"intent\":\""
    ++ (t.intent_str
        ++ (lit "\",\"target\":\""
            ++ (t.target_str
                ++ (lit "\",\"action\":\"" ++ (t.action_str ++ lit "\",\"confidence\":0.85}")))))

unfoldable pub mock_generate : InferenceRequest → InferenceResponse
unfolding best_template generated
mock_generate req =
    let text = strncpy 8191 (generated (best_template req.prompt)) in
    record {
      id = req.id;
      generated_text = text;
      tokens_generated = length text / 3;
      tokens_per_second = lit "999.0";
      success = true;
      error_message = [];
    }

-- Whether the backend is llamacpp.
unfoldable pub backend_of : Option Bytes → InferenceBackend
backend_of none = inference_backend_mock
backend_of (some backend) =
    if str_eq backend (lit "llamacpp") then inference_backend_llamacpp else inference_backend_mock

unfoldable pub positive_or : ℤ → ℤ → ℤ
positive_or n default = if ltb_ℤ (pos 0) n then n else default

unfoldable pub or_empty : Option Bytes → Bytes
or_empty none = []
or_empty (some s) = s

unfoldable pub inference_init : Option Bytes → Option Bytes → ℤ → ℤ → InferenceEngine
unfolding backend_of positive_or or_empty
inference_init model_path backend context_size num_threads = record {
  model_path = strncpy 511 (or_empty model_path);
  backend = backend_of backend;
  state = model_state_unloaded;
  context_size = positive_or context_size (pos 2048);
  num_threads = positive_or num_threads (pos 4);
  model_name = [];
  loaded_at = 0;
}

-- The branch for the mock; the call returns 0.
unfoldable pub load_mock : ℕ → InferenceEngine → InferenceEngine
load_mock now eng = record eng {
  model_name = lit "mock-gguf-model-v1";
  loaded_at = now;
  state = model_state_loaded;
}

-- Any other backend becomes the mock, and the call is made again. Every call returns 0.
unfoldable pub load_with : InferenceBackend → ℕ → InferenceEngine → InferenceEngine
unfolding load_mock
load_with inference_backend_mock now eng = load_mock now eng
load_with _ now eng =
    load_mock now (record eng { state = model_state_error; backend = inference_backend_mock })

unfoldable pub inference_load_model : ℕ → InferenceEngine → InferenceEngine
unfolding load_with
inference_load_model now eng =
    load_with eng.backend now (record eng { state = model_state_loading })

abbrev pub refusal : InferenceRequest → Bytes → InferenceResponse
refusal req message = record {
  id = req.id;
  generated_text = [];
  tokens_generated = 0;
  tokens_per_second = lit "0.0";
  success = false;
  error_message = strncpy 255 message;
}

-- The response, and whether the call returns 0.
unfoldable pub generate_with : InferenceBackend → InferenceRequest → InferenceResponse × Bool
unfolding mock_generate
generate_with inference_backend_mock req = (mock_generate req, true)
generate_with _ req = (record (refusal req (lit "backend not implemented")) { id = 0 }, false)

unfoldable pub generate_in :
    ModelState → InferenceBackend → InferenceRequest → InferenceResponse × Bool
unfolding generate_with
generate_in model_state_loaded backend req = generate_with backend req
generate_in _ backend req = (refusal req (lit "model not loaded"), false)

unfoldable pub inference_generate : InferenceEngine → InferenceRequest → InferenceResponse × Bool
unfolding generate_in
inference_generate eng req = generate_in eng.state eng.backend req

unfoldable pub inference_unload_model : InferenceEngine → InferenceEngine
inference_unload_model eng = record eng { state = model_state_unloaded }
