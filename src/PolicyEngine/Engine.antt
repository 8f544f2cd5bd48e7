-- ===== src/PolicyEngine/Engine.antt =====
-- The handler of the policy engine's socket: `client_handler` of
-- khazar/components/policy-engine/main.c. It is given one message and returns the new store and the
-- text sent back; `dir` is what the configured directory holds when a reload reads it.
pub mod Effects
use khazar_os.Common.{Bool, Option, List, [], ◌∷◌}
use khazar_os.CString.{Bytes, lit, strncpy}
use khazar_os.PolicyEngine.Store.{PolicyStore, policy_add_rule, policy_check}
use khazar_os.PolicyEngine.Load.{File, policy_reload}
use khazar_os.PolicyEngine.Protocol.{
  MessageType, check_policy, ping, version, reload, add_rule, protocol_parse,
  protocol_parse_policy_check, protocol_parse_add_rule, protocol_build_response,
  protocol_build_ping, protocol_build_version, protocol_build_error, protocol_build_rule_added,
}

-- What `snprintf` leaves in `char response[1024]`.
abbrev pub in_response : Bytes → Bytes
in_response s = strncpy 1023 s

unfoldable pub or_unnamed : Bytes → Bytes
or_unnamed [] = lit "unnamed"
or_unnamed (c ∷ s) = c ∷ s

module _ (fnmatch : Bytes → Bytes → Bool) (dir : Option (List File)) where
  unfoldable pub handle_type : MessageType → PolicyStore → Bytes → PolicyStore × Bytes
  unfolding or_unnamed
  handle_type ping ps raw = (ps, in_response protocol_build_ping)
  handle_type version ps raw = (ps, in_response protocol_build_version)
  handle_type reload ps raw = (
    (policy_reload ps dir).0,
    in_response (lit "{\"type\":\"policy_response\",\"status\":\"reloaded\"}"),
  )
  handle_type add_rule ps raw =
      let rule = protocol_parse_add_rule raw in
      (
        (policy_add_rule ps rule).0,
        in_response (protocol_build_rule_added (or_unnamed rule.capability)),
      )
  handle_type check_policy ps raw = (
    ps,
    in_response
        (protocol_build_response (policy_check fnmatch ps (protocol_parse_policy_check raw))),
  )
  handle_type _ ps raw = (ps, in_response (protocol_build_error (lit "unknown message type")))

  unfoldable pub client_handler : PolicyStore → Bytes → PolicyStore × Bytes
  unfolding handle_type
  client_handler ps raw = handle_type (protocol_parse raw) ps raw
