-- ===== src/Orchestrator/Tests/Requests.antt =====
-- The handler of requests at concrete inputs.
use khazar_os.Common.{
  ℕ, zero, suc, ◌≤◌, ◌≡◌, refl, true, false, none, some, [], ◌∷◌, arith, length, length-replicate,
  replicate,
}
use khazar_os.CString.{Bytes, lit, str_eq}
use khazar_os.CString.Quoted.{NoQuote, NoQuote-is_quote_free}
use khazar_os.Common.{All}
use khazar_os.PolicyEngine.Store.{PolicyStore, allow, policy_check}
use khazar_os.PolicyEngine.Engine.{client_handler}
use khazar_os.Orchestrator.Registry.{
  Registry, max_agents, has_capability, registry_find_by_capability,
}
use khazar_os.Orchestrator.Registry.Unique.{IsValid, NotNamed}
use khazar_os.Orchestrator.Message.{Request, success, error, policy_denied, Intent}
use khazar_os.Orchestrator.Router.{router_init, router_resolve}
use khazar_os.Orchestrator.PolicyClient.{Verdict, policy_client_check}
use khazar_os.Orchestrator.AgentClient.{Exchange, answer}
use khazar_os.Orchestrator.Handler.{
  World, resolve, policy_verdict, on_request, on_register, on_request_handler,
}
use khazar_os.Orchestrator.Handler.Policy.{
  MayGo, on_request-task, on_request-sends, on_request_denied, on_request_allowed,
}
use khazar_os.Orchestrator.Handler.Register.{on_request_handler-IsValid, on_register-full}
use khazar_os.PolicyEngine.Protocol.{protocol_build_response, protocol_parse_policy_check}
use khazar_os.Orchestrator.PolicyClient.{check_request, copy_quoted, read_verdict}
use khazar_os.PolicyEngine.Store.{consider, match_agent, match_capability, scan}
use khazar_os.Orchestrator.Tests.{audio, desktop, registry, registry-IsValid, rule}

abbrev opening : Request
opening = record { id = 3; query = lit "ac firefox" }

abbrev exchange : Bytes → Bytes → Exchange
exchange path message = answer (lit "{\"status\":\"success\"}")

-- The policy engine answers from the store.
abbrev world : PolicyStore → World
world ps = record {
  rule_client = none;
  router = some router_init;
  intent_client = none;
  policy_client = some (λ m. some (client_handler str_eq none ps m).1);
  agent_client = some exchange;
}

abbrev open_intent : Intent
open_intent = record {
  action = [];
  target = lit "ac firefox";
  required_capability = lit "open_application";
}

resolves : (ps : PolicyStore) → resolve (world ps) opening ≡ some open_intent
unfolding resolve router_resolve router_init
resolves ps = refl

finds : registry_find_by_capability registry (lit "open_application") ≡ some audio
unfolding registry_find_by_capability has_capability str_eq
finds = refl

abbrev allowed : Verdict
allowed = record { allowed = true; reason = [] }

abbrev denied : Verdict
denied = record { allowed = false; reason = lit "no matching policy rule" }

verdict_allowed : policy_verdict (world (rule ∷ [])) audio open_intent ≡ some allowed
unfolding policy_verdict policy_client_check client_handler check_request protocol_build_response
    read_verdict policy_check scan consider match_capability protocol_parse_policy_check match_agent
    copy_quoted khazar_os.PolicyEngine.Protocol.protocol_parse
verdict_allowed = refl

verdict_denied : policy_verdict (world []) audio open_intent ≡ some denied
unfolding policy_verdict policy_client_check client_handler check_request protocol_build_response
    read_verdict policy_check scan consider match_capability protocol_parse_policy_check match_agent
    copy_quoted khazar_os.PolicyEngine.Protocol.protocol_parse
verdict_denied = refl

may_go : MayGo (world (rule ∷ [])) registry opening audio open_intent
may_go = record {
  resolved = resolves (rule ∷ []);
  found = finds;
  permitted = rw verdict_allowed refl;
}

on_request-sends_test :
    (on_request (world (rule ∷ [])) registry opening).task ≡ some (audio, opening)
on_request-sends_test =
    on_request-sends (world (rule ∷ [])) opening registry audio open_intent exchange refl may_go

sends : (on_request (world (rule ∷ [])) registry opening).task ≡ some (audio, opening)
sends = on_request-sends (world (rule ∷ [])) opening registry audio open_intent exchange refl may_go

on_request-task_example :
    (opening ≡ opening)
    × ((intent : Intent) × MayGo (world (rule ∷ [])) registry opening audio intent)
on_request-task_example = on_request-task (world (rule ∷ [])) opening registry audio opening sends

on_request_denied_test :
    ((on_request (world []) registry opening).task ≡ none)
    × ((on_request (world []) registry opening).counted ≡ false)
    × ((on_request (world []) registry opening).reply.status ≡ error)
    × ((on_request (world []) registry opening).reply.error_code ≡ policy_denied)
    × ((on_request (world []) registry opening).reply.id ≡ 3)
on_request_denied_test =
    on_request_denied (world []) opening registry audio open_intent denied (resolves []) finds
      verdict_denied refl

-- The texts of the only intent that the request resolves to.
abbrev Texts : Intent → Type 0
Texts intent =
    NoQuote (lit "audio")
    × NoQuote intent.required_capability
    × NoQuote intent.target
    × (length (lit "audio") ≤ 63)
    × (length intent.required_capability ≤ 63)
    × (length intent.target ≤ 127)
    × (str_eq (lit "audio") (lit "capability") ≡ false)
    × (str_eq (lit "audio") (lit "target") ≡ false)
    × (str_eq intent.required_capability (lit "target") ≡ false)

open_intent-Texts : Texts open_intent
open_intent-Texts = (
  NoQuote-is_quote_free (lit "audio") refl,
  NoQuote-is_quote_free (lit "open_application") refl,
  NoQuote-is_quote_free (lit "ac firefox") refl,
  omega arith,
  omega arith,
  omega arith,
  unfold str_eq in refl,
  unfold str_eq in refl,
  unfold str_eq in refl,
)

resolved-Texts :
    (intent : Intent) → resolve (world (rule ∷ [])) opening ≡ some intent → Texts intent
resolved-Texts intent e =
    let same : open_intent ≡ intent = cc (e, resolves (rule ∷ [])) in rw (← same) open_intent-Texts

on_request_allowed_example :
    (intent : Intent) × (resolve (world (rule ∷ [])) opening ≡ some intent)
    × ((policy_check str_eq (rule ∷ []) (record {
      id = 1;
      agent_name = lit "audio";
      capability = intent.required_capability;
      target = intent.target;
    })).action
        ≡ allow)
on_request_allowed_example =
    on_request_allowed (world (rule ∷ [])) registry opening opening audio str_eq none (rule ∷ [])
      refl resolved-Texts sends

abbrev registration : Bytes
registration =
    lit "{\"type\":\"register\",\"name\":\"audio\",\"version\":\"1\",\"capabilities\":[\"mute\"]}"

on_request_handler-IsValid_example :
    IsValid (on_request_handler (world []) 500 registry registration).registry
on_request_handler-IsValid_example =
    on_request_handler-IsValid (world []) 500 registry registration registry-IsValid

abbrev full : Registry
full = replicate max_agents audio

full-NotNamed : (n : ℕ) → All (NotNamed (lit "desktop")) (replicate n audio)
full-NotNamed zero = tt
full-NotNamed (suc n) = (unfold str_eq in refl, full-NotNamed n)

on_register-full_test :
    ((on_register 500 full desktop).0 ≡ full)
    × ((on_register 500 full desktop).1.reply.status ≡ success)
on_register-full_test =
    on_register-full 500 full desktop (omega arith)
      (omega (arith, length-replicate max_agents audio)) (full-NotNamed max_agents)
