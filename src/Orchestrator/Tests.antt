-- ===== src/Orchestrator/Tests.antt =====
-- The orchestrator at concrete inputs.
mod Config
mod Requests
use khazar_os.Common.{
  ℕ, zero, suc, ◌≤◌, ◌≡◌, refl, ◌↔◌, true, false, none, some, [], ◌∷◌, arith, if◌then◌else◌, length,
  pos, length-replicate, replicate,
}
use khazar_os.CString.{Bytes, lit, str_eq, has_prefix, strstr, is_some, contains}
use khazar_os.CString.Quoted.{NoQuote, NoQuote-is_quote_free}
use khazar_os.Common.{All}
use khazar_os.PolicyEngine.Store.{PolicyRule, PolicyStore, allow, match_exact, policy_check}
use khazar_os.PolicyEngine.Engine.{client_handler}
use khazar_os.Orchestrator.Agent.{AgentInfo}
use khazar_os.Orchestrator.Registry.{
  Registry, max_agents, refresh, update, registry_register, unregister, registry_unregister,
  has_capability, registry_find_by_capability, registry_find_by_name,
}
use khazar_os.Orchestrator.Registry.Unique.{
  IsValid, NotNamed, HasUniqueNames, registry_register-IsValid, registry_unregister-IsValid,
}
use khazar_os.Orchestrator.Registry.Find.{
  find-registry_register, find-registry_unregister, IsFirst, find_by_capability-IsFirst,
}
use khazar_os.Orchestrator.Session.{Session, SessionManager, session_get_or_create}
use khazar_os.Orchestrator.Session.Create
use khazar_os.Orchestrator.Session.Create.{
  Answers, session_get_or_create-IsValid, session_get_or_create-Answers,
}
use khazar_os.Orchestrator.Message.{Request, success, error, policy_denied, Intent}
use khazar_os.Orchestrator.Router.{lower_query, router_init, router_resolve, lower}
use khazar_os.Orchestrator.Router.Keywords.{IsOpenOrClose, router_resolve_baglat}
use khazar_os.Orchestrator.PolicyClient.{Verdict, policy_client_check}
use khazar_os.Orchestrator.PolicyClient.EndToEnd.{policy_client_check-policy_check}
use khazar_os.Orchestrator.AgentClient.{Exchange, answer}
use khazar_os.Orchestrator.Handler.{
  World, resolve, policy_verdict, on_request, on_register, on_request_handler,
}
use khazar_os.Orchestrator.Handler.Policy.{
  MayGo, on_request-task, on_request-sends, on_request_denied, on_request_allowed,
}
use khazar_os.Orchestrator.Handler.Register.{on_request_handler-IsValid, on_register-full}
use khazar_os.PolicyEngine.Protocol.{protocol_build_response, protocol_parse_policy_check}
use khazar_os.Orchestrator.PolicyClient.{check_request, copy_quoted, read_verdict}
use khazar_os.PolicyEngine.Store.{consider, match_agent, match_capability, scan}

abbrev agent : Bytes → AgentInfo
agent name = record {
  name = name;
  version = lit "1.0";
  socket_path = lit "/run/agent.sock";
  capabilities = lit "open_application" ∷ lit "screenshot" ∷ [];
  alive = true;
  last_heartbeat = 100;
}

abbrev pub desktop : AgentInfo
desktop = agent (lit "desktop")

abbrev pub audio : AgentInfo
audio = agent (lit "audio")

abbrev pub registry : Registry
registry = audio ∷ desktop ∷ []

registry-HasUniqueNames : HasUniqueNames registry
registry-HasUniqueNames = unfold str_eq in ((refl, tt), (tt, tt))

pub registry-IsValid : IsValid registry
registry-IsValid = record { unique = registry-HasUniqueNames; fits = omega arith }

registry_register-IsValid_test : IsValid (registry_register 200 registry (agent (lit "audio"))).0
registry_register-IsValid_test =
    registry_register-IsValid 200 registry (agent (lit "audio")) registry-IsValid

registry_unregister-IsValid_test : IsValid (registry_unregister registry (lit "audio")).0
registry_unregister-IsValid_test =
    registry_unregister-IsValid registry (lit "audio") registry-IsValid

registers : (registry_register 200 registry audio).1 ≡ true
unfolding registry_register update str_eq
registers = refl

find-registry_register_example :
    registry_find_by_name (registry_register 200 registry audio).0 (lit "desktop") ≡ (
      if str_eq (lit "audio") (lit "desktop")
      then some (refresh 200 audio)
      else registry_find_by_name registry (lit "desktop"))
find-registry_register_example = find-registry_register 200 registry audio (lit "desktop") registers

unregisters : (registry_unregister registry (lit "audio")).1 ≡ true
unfolding registry_unregister unregister str_eq
unregisters = refl

find-registry_unregister_test :
    registry_find_by_name (registry_unregister registry (lit "audio")).0 (lit "desktop") ≡ (
      if str_eq (lit "audio") (lit "desktop")
      then none
      else registry_find_by_name registry (lit "desktop"))
find-registry_unregister_test =
    find-registry_unregister registry (lit "audio") (lit "desktop") registry-HasUniqueNames
      unregisters

find_by_capability-IsFirst_test :
    IsFirst (lit "screenshot") registry (registry_find_by_capability registry (lit "screenshot"))
find_by_capability-IsFirst_test = find_by_capability-IsFirst (lit "screenshot") registry

abbrev session : Bytes → ℕ → Session
session client last = record {
  session_id = lit "s";
  client_id = client;
  history = [];
  last_active = last;
  active = true;
}

abbrev manager : SessionManager
manager = record {
  sessions = session (lit "7") 10 ∷ session (lit "8") 900 ∷ [];
  max_sessions = 2;
  timeout_secs = 300;
}

manager-IsValid : Create.IsValid manager
manager-IsValid = record {
  apart = (((λ a b. unfold str_eq in refl), tt), (tt, tt));
  fits = omega arith;
}

session_get_or_create-IsValid_example :
    Create.IsValid (session_get_or_create 1000 manager (lit "7")).0
session_get_or_create-IsValid_example =
    session_get_or_create-IsValid 1000 manager (lit "7") (omega arith) manager-IsValid

session_get_or_create-Answers_test :
    Answers 1000
      (lit "7")
      (session_get_or_create 1000 manager (lit "7")).0
      (session_get_or_create 1000 manager (lit "7")).1
session_get_or_create-Answers_test =
    session_get_or_create-Answers 1000 manager (lit "7") (omega arith)

abbrev baglat : Request
baglat = record { id = 1; query = lit "Kompyuteri BAGLAT" }

holds_baglat : contains (lower_query baglat.query) (lit "baglat") ≡ true
unfolding lower_query lower strstr has_prefix is_some
holds_baglat = refl

baglat_test :
    (i : Intent) × (router_resolve router_init baglat ≡ some i)
    × IsOpenOrClose i.required_capability
baglat_test = router_resolve_baglat baglat holds_baglat

abbrev pub rule : PolicyRule
rule = record {
  capability = lit "open_application";
  agent_name = lit "*";
  action = allow;
  require_root = false;
  match_type = match_exact;
  message = [];
  priority = pos 10;
}

policy_client_check-policy_check_example :
    (v : Verdict) × (policy_client_check
        (λ m. some (client_handler str_eq none (rule ∷ []) m).1)
        (lit "audio")
        (lit "open_application")
        (lit "firefox")
        256
      ≡ some v)
    × ((v.allowed ≡ true) ↔ (
        (policy_check str_eq (rule ∷ []) (record {
          id = 1;
          agent_name = lit "audio";
          capability = lit "open_application";
          target = lit "firefox";
        })).action
        ≡ allow))
policy_client_check-policy_check_example =
    policy_client_check-policy_check str_eq none (rule ∷ []) (lit "audio") (lit "open_application")
      (lit "firefox") 256 (NoQuote-is_quote_free (lit "audio") refl)
      (NoQuote-is_quote_free (lit "open_application") refl)
      (NoQuote-is_quote_free (lit "firefox") refl) (omega arith) (omega arith) (omega arith)
      (unfold str_eq in refl) (unfold str_eq in refl) (unfold str_eq in refl)
