-- ===== src/ModelRuntime/Tests.antt =====
-- The model runtime at concrete messages.
use khazar_os.Common.{ℕ, ◌≡◌, refl, true, false, none, some, List, [], ◌∷◌, arith, pos}
use khazar_os.CString.{Bytes, lit, str_eq}
use khazar_os.CString.Quoted.{NoQuote-is_quote_free}
use khazar_os.ModelRuntime.Protocol.{
  InferenceRequest, InferenceResponse, protocol_parse_inference, protocol_build_inference_response,
}
use khazar_os.ModelRuntime.Inference.{InferenceEngine, best_template, inference_generate}
use khazar_os.ModelRuntime.Engine.{start}
use khazar_os.ModelRuntime.Engine.States.{run, loaded_after, generate-loaded_after}
use khazar_os.ModelRuntime.Engine.Text.{raw_text-build_response}
use khazar_os.ModelRuntime.Engine.EndToEnd.{Names, prompt_of, runtime, classify_with_runtime-Names}
use khazar_os.IntentClassifier.Protocol.{Classified}
use khazar_os.IntentClassifier.Classify.{raw_text, classify_with_runtime}
use khazar_os.ModelRuntime.Config as RuntimeConfig
use khazar_os.Settings.{contents}
use khazar_os.ModelRuntime.Protocol.{protocol_parse_type}
use khazar_os.ModelRuntime.Inference.{inference_unload_model}

abbrev engine : InferenceEngine
engine = start 100 none (some (lit "llamacpp")) (pos 0) (pos 4)

abbrev request : InferenceRequest
request = protocol_parse_inference (lit "{\"prompt\":\"vlc ara\"}")

abbrev messages : List (ℕ × Bytes)
messages =
    (101, lit "{\"type\":\"unload_model\"}")
    ∷ (102, lit "{\"type\":\"status\"}")
    ∷ (103, lit "{\"type\":\"load_model\"}")
    ∷ []

generate-loaded_after_example :
    (inference_generate (run engine messages) request).0.success ≡ loaded_after true messages
generate-loaded_after_example =
    generate-loaded_after 100 none (some (lit "llamacpp")) (pos 0) (pos 4) messages request

unloaded_test :
    (inference_generate
      (run engine ((101, lit "{\"type\":\"unload_model\"}") ∷ []))
      request).0.success
    ≡ false
unfolding inference_generate run protocol_parse_type inference_unload_model
unloaded_test = refl

abbrev said : InferenceResponse
said = record {
  id = 7;
  generated_text = lit "a \"quoted\" back\\slash\n";
  tokens_generated = 3;
  tokens_per_second = lit "999.0";
  success = true;
  error_message = [];
}

raw_text-build_response_example :
    raw_text (protocol_build_inference_response said) ≡ lit "a \"quoted\" back\\slash\n"
raw_text-build_response_example = raw_text-build_response said refl (omega arith)

abbrev nothing_yet : Classified
nothing_yet = record {
  id = 1;
  intent = [];
  target = [];
  confidence = lit "0.00";
  fallback = false;
  raw_output = [];
}

classify_with_runtime-Names_example :
    Names (best_template (prompt_of (lit "vlc quraşdır"))) nothing_yet (
      classify_with_runtime
        (λ s. none)
        (runtime (λ s. none) 100 engine nothing_yet)
        (lit "vlc quraşdır")
        nothing_yet)
unfolding start str_eq
classify_with_runtime-Names_example =
    classify_with_runtime-Names (λ s. none) 100 engine nothing_yet (lit "vlc quraşdır") refl refl
      (NoQuote-is_quote_free (lit "vlc quraşdır") refl) (omega arith)

template_test :
    best_template (prompt_of (lit "vlc quraşdır"))
    ≡ some (record {
      intent_str = lit "install_package";
      target_str = lit "vlc";
      action_str = lit "quraşdır";
    })
unfolding best_template
template_test = refl

-- The key has no blank in front of the '=', or the line is passed over.
blank_test : (RuntimeConfig.config_load (contents (lit "num_threads = 8\n"))).0.num_threads ≡ pos 4
unfolding RuntimeConfig.config_load str_eq
blank_test = refl
