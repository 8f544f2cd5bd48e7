-- ===== src/ModelRuntime/Engine/States.antt =====
-- When the model runtime generates a text, after any messages.
use khazar_os.Common.{ℕ, ◌≡◌, refl, Bool, true, false, Option, List, [], ◌∷◌, ℤ}
use khazar_os.CString.{Bytes}
use khazar_os.ModelRuntime.Protocol.{
  MessageType, rmsg_unknown, rmsg_inference, rmsg_ping, rmsg_version, rmsg_load_model,
  rmsg_unload_model, rmsg_status, protocol_parse_type, InferenceRequest,
}
use khazar_os.ModelRuntime.Inference.{
  InferenceBackend, inference_backend_none, inference_backend_llamacpp, inference_backend_mock,
  model_state_unloaded, model_state_loading, model_state_loaded, InferenceEngine, inference_init,
  load_mock, load_with, inference_load_model, inference_generate, generate_in,
  inference_unload_model,
}
use khazar_os.ModelRuntime.Engine.{handle_type, client_handler, start}

-- The engine after messages at their times.
unfoldable pub run : InferenceEngine → List (ℕ × Bytes) → InferenceEngine
unfolding client_handler
run eng [] = eng
run eng ((now, raw) ∷ ms) = run (client_handler now eng raw).0 ms

-- What a message does to the fact that a model is loaded.
abbrev pub loads : MessageType → Bool → Bool
loads rmsg_load_model b = true
loads rmsg_unload_model b = false
loads _ b = b

-- Whether the last message of those for loading and for unloading is one for loading.
abbrev pub loaded_after : Bool → List (ℕ × Bytes) → Bool
loaded_after b [] = b
loaded_after b ((now, raw) ∷ ms) = loaded_after (loads (protocol_parse_type raw) b) ms

-- The engine is loaded, with the mock, or it is not.
data IsIn : Bool → InferenceEngine → Type 0 where
  loaded :
      {eng : InferenceEngine}
      → eng.state ≡ model_state_loaded
      → eng.backend ≡ inference_backend_mock
      → IsIn true eng
  unloaded : {eng : InferenceEngine} → eng.state ≡ model_state_unloaded → IsIn false eng

load-IsIn : (now : ℕ) (eng : InferenceEngine) → IsIn true (inference_load_model now eng)
unfolding inference_load_model load_mock
load-IsIn now eng = load_with-IsIn eng.backend refl
  where
    load_with-IsIn :
        (b : InferenceBackend)
        → eng.backend ≡ b
        → IsIn true (load_with b now (record eng { state = model_state_loading }))
    load_with-IsIn inference_backend_mock e = loaded refl e
    load_with-IsIn inference_backend_llamacpp e = loaded refl refl
    load_with-IsIn inference_backend_none e = loaded refl refl

handle_type-IsIn :
    (b : Bool) (now : ℕ) (eng : InferenceEngine) (raw : Bytes) (t : MessageType)
    → IsIn b eng
    → IsIn (loads t b) (handle_type now eng raw t).0
unfolding handle_type inference_unload_model
handle_type-IsIn b now eng raw rmsg_load_model h = load-IsIn now eng
handle_type-IsIn b now eng raw rmsg_unload_model h = unloaded refl
handle_type-IsIn b now eng raw rmsg_ping h = h
handle_type-IsIn b now eng raw rmsg_version h = h
handle_type-IsIn b now eng raw rmsg_status h = h
handle_type-IsIn b now eng raw rmsg_inference h = h
handle_type-IsIn b now eng raw rmsg_unknown h = h

run-IsIn :
    (b : Bool) (eng : InferenceEngine) (ms : List (ℕ × Bytes))
    → IsIn b eng
    → IsIn (loaded_after b ms) (run eng ms)
unfolding run client_handler
run-IsIn b eng [] h = h
run-IsIn b eng ((now, raw) ∷ ms) h =
    run-IsIn (loads (protocol_parse_type raw) b) (client_handler now eng raw).0 ms
      (handle_type-IsIn b now eng raw (protocol_parse_type raw) h)

generate-IsIn :
    (b : Bool) (eng : InferenceEngine) (req : InferenceRequest)
    → IsIn b eng
    → (inference_generate eng req).0.success ≡ b
unfolding inference_generate
generate-IsIn true eng req (loaded s m) = rw (s, m) (success-mock req)
  where
    success-mock :
        (r : InferenceRequest)
        → (generate_in model_state_loaded inference_backend_mock r).0.success ≡ true
    success-mock r = refl
generate-IsIn false eng req (unloaded s) = rw s refl

-- After any messages to a runtime that was started with any backend, a request is answered with a text
-- exactly when the last message of those for loading and unloading was one for loading, or there was none.
pub generate-loaded_after :
    (now : ℕ) (model_path backend : Option Bytes) (context_size num_threads : ℤ)
    (ms : List (ℕ × Bytes)) (req : InferenceRequest)
    → (inference_generate
        (run (start now model_path backend context_size num_threads) ms)
        req).0.success
      ≡ loaded_after true ms
unfolding start
generate-loaded_after now model_path backend context_size num_threads ms req =
    generate-IsIn (loaded_after true ms) _ req (
      run-IsIn true (start now model_path backend context_size num_threads) ms
        (load-IsIn now (inference_init model_path backend context_size num_threads)))
