-- ===== src/PolicyEngine/Engine/Effects.antt =====
-- What a message does to the policy store (khazar/components/policy-engine/main.c).
use khazar_os.Common.{
  ◌≤◌, ◌≡◌, refl, ◌≢◌, Bool, Option, List, [], ◌∷◌, arith, length, ℤ, pos, negsuc, length-append,
}
use khazar_os.CString.{Bytes}
use khazar_os.PolicyEngine.Store.{
  PolicyStore, PolicyRule, max_policies, policy_init, policy_add_rule,
}
use khazar_os.PolicyEngine.Load.{File, policy_load_dir, policy_reload}
use khazar_os.PolicyEngine.Load.Growth.{Loads, policy_load_dir-Loads}
use khazar_os.PolicyEngine.Protocol.{
  MessageType, reload, add_rule, protocol_parse, protocol_parse_add_rule, protocol_build_rule_added,
}
use khazar_os.PolicyEngine.Engine.{in_response, or_unnamed, handle_type, client_handler}

policy_add_rule_bound :
    (ps : PolicyStore) (r : PolicyRule)
    → length ps ≤ max_policies
    → length (policy_add_rule ps r).0 ≤ max_policies
unfolding policy_add_rule
policy_add_rule_bound ps r h = ground (arith, length-append ps (r ∷ []))

Loads-bound :
    (r : PolicyStore × ℤ) (ps : PolicyStore)
    → Loads ps r
    → length ps ≤ max_policies
    → length r.0 ≤ max_policies
Loads-bound (ps', pos n) ps g h = g.fits h
Loads-bound (ps', negsuc n) ps e h = rw e h

policy_reload_bound :
    (ps : PolicyStore) (dir : Option (List File)) → length (policy_reload ps dir).0 ≤ max_policies
unfolding policy_reload
policy_reload_bound ps dir =
    Loads-bound (policy_load_dir policy_init dir) policy_init
      (policy_load_dir-Loads policy_init dir) (omega arith)

module _ (fnmatch : Bytes → Bytes → Bool) (dir : Option (List File)) where
  handle_type_bound :
      (t : MessageType) (ps : PolicyStore) (raw : Bytes)
      → length ps ≤ max_policies
      → length (handle_type fnmatch dir t ps raw).0 ≤ max_policies
  unfolding handle_type
  handle_type_bound reload ps raw h = policy_reload_bound ps dir
  handle_type_bound add_rule ps raw h = policy_add_rule_bound ps (protocol_parse_add_rule raw) h
  handle_type_bound _ ps raw h = h

  -- No message, whatever it holds, makes the store outgrow `MAX_POLICIES`: from a store within the
  -- bound the handler returns a store within the bound.
  pub client_handler_bound :
      (ps : PolicyStore) (raw : Bytes)
      → length ps ≤ max_policies
      → length (client_handler fnmatch dir ps raw).0 ≤ max_policies
  unfolding client_handler
  client_handler_bound ps raw h = handle_type_bound (protocol_parse raw) ps raw h

  -- A message that is neither a reload nor an added rule leaves the store as it is.
  pub client_handler_reads :
      (ps : PolicyStore) (raw : Bytes)
      → protocol_parse raw ≢ reload
      → protocol_parse raw ≢ add_rule
      → (client_handler fnmatch dir ps raw).0 ≡ ps
  unfolding client_handler
  client_handler_reads ps raw nr na = go (protocol_parse raw) nr na
    where
      go : (t : MessageType) → t ≢ reload → t ≢ add_rule → (handle_type fnmatch dir t ps raw).0 ≡ ps
      go reload r a = absurd (r refl)
      go add_rule r a = absurd (a refl)
      go _ r a = refl

  -- On a full store a rule is not added, and the answer still says that it was.
  pub client_handler_full :
      (ps : PolicyStore) (raw : Bytes)
      → protocol_parse raw ≡ add_rule
      → max_policies ≤ length ps
      → client_handler fnmatch dir ps raw ≡ (
        ps,
        in_response
            (protocol_build_rule_added (or_unnamed (protocol_parse_add_rule raw).capability)),
      )
  unfolding client_handler policy_add_rule
  client_handler_full ps raw t full = rw (t, handle_type) (ground arith)
