-- ===== src/ModelRuntime/Engine.antt =====
-- The handler of the model runtime: khazar/components/model-runtime/main.c.
pub mod States
pub mod Text
pub mod Templates
pub mod EndToEnd
use khazar_os.Common.{
  ℕ, zero, suc, ◌+◌, ◌-◌, ◌*◌, ◌/◌, ◌%◌, ◌^◌, ◌≤◌, ◌<◌, ◌≡◌, refl, sym, ap, ◌∙◌, ◌≢◌, ◌↔◌, ◌⊎◌, inl,
  inr, Bool, true, false, not, ◌&&◌, ◌||◌, Option, none, some, List, [], ◌∷◌, ◌++◌, map, arith, leb,
  ltb, ◌==◌, if◌then◌else◌, length, take, drop, get_or, get_elem?, set, ℤ, pos, negsuc, ltb_ℤ,
  pos_part, neg_part, sub_ℕ, ◌+ℤ◌, ◌≤ℤ◌, ◌<ℤ◌, ◌>>=◌, Bool-cases, Option-cases, length-append,
  length-set, replicate, ltb→lt, lt→ltb,
}
use khazar_os.CString.{
  Bytes, lit, str_eq, strncpy, has_prefix, strstr, is_some, contains, strchr, tolower, isspace,
  skip_spaces,
}
use khazar_os.CString.Lines.{decimal}
use khazar_os.ModelRuntime.Protocol.{
  MessageType, rmsg_unknown, rmsg_inference, rmsg_ping, rmsg_version, rmsg_load_model,
  rmsg_unload_model, rmsg_status, protocol_parse_type, protocol_parse_inference,
  protocol_build_inference_response, protocol_build_ping, protocol_build_error,
}
use khazar_os.ModelRuntime.Inference.{
  InferenceBackend, inference_backend_mock, ModelState, model_state_unloaded, model_state_loading,
  model_state_loaded, model_state_error, InferenceEngine, inference_init, inference_load_model,
  inference_generate, inference_unload_model,
}

-- `info` names the mock and a context of 2048, whatever the engine has.
unfoldable pub protocol_build_version : Bytes → Bytes
protocol_build_version model_name =
    lit "{\"type\":\"inference_response\",\"version\":\"0.1.0\",\"backend\":\"mock\",\"model\":\""
    ++ (strncpy 127 model_name ++ lit "\",\"context_size\":2048}")

unfoldable pub state_str : ModelState → Bytes
state_str model_state_unloaded = lit "unloaded"
state_str model_state_loading = lit "loading"
state_str model_state_loaded = lit "loaded"
state_str model_state_error = lit "error"

-- `loaded_at` is the present time.
unfoldable pub protocol_build_status : ℕ → ModelState → Bytes → Bytes
unfolding state_str decimal
protocol_build_status now state model_name =
    lit "{\"type\":\"inference_response\",\"status\":\""
    ++ (state_str state
        ++ (lit "\",\"model\":\""
            ++ (strncpy 127 model_name ++ (lit "\",\"loaded_at\":" ++ (decimal now ++ lit "}")))))

-- The engine afterwards, and the bytes sent.
unfoldable pub handle_type : ℕ → InferenceEngine → Bytes → MessageType → InferenceEngine × Bytes
handle_type now eng raw rmsg_ping = (eng, protocol_build_ping)
handle_type now eng raw rmsg_version = (eng, protocol_build_version eng.model_name)
handle_type now eng raw rmsg_status = (eng, protocol_build_status now eng.state eng.model_name)
handle_type now eng raw rmsg_load_model =
    let eng' = inference_load_model now eng in
    (
      eng',
      lit "{\"type\":\"inference_response\",\"status\":\"model_loaded\",\"model\":\""
          ++ (eng'.model_name ++ lit "\"}"),
    )
handle_type now eng raw rmsg_unload_model = (
  inference_unload_model eng,
  lit "{\"type\":\"inference_response\",\"status\":\"model_unloaded\"}",
)
handle_type now eng raw rmsg_inference = (
  eng,
  protocol_build_inference_response (inference_generate eng (protocol_parse_inference raw)).0,
)
handle_type now eng raw rmsg_unknown = (eng, protocol_build_error (lit "unknown message type"))

unfoldable pub client_handler : ℕ → InferenceEngine → Bytes → InferenceEngine × Bytes
unfolding handle_type
client_handler now eng raw = handle_type now eng raw (protocol_parse_type raw)

-- The engine as `main` starts it.
unfoldable pub start : ℕ → Option Bytes → Option Bytes → ℤ → ℤ → InferenceEngine
unfolding inference_init inference_load_model
start now model_path backend context_size num_threads =
    inference_load_model now (inference_init model_path backend context_size num_threads)
