-- ===== src/PolicyEngine/Store.antt =====
-- The policy store and the decision: khazar/components/policy-engine/policy/policy.c and
-- include/common.h. The store's `rules[0 .. count)` is a list; its mutex is held by every operation
-- from its first to its last access, so an operation is one step.
use khazar_os.Common.{
  ℕ, Bool, true, false, not, ◌&&◌, Option, none, some, List, [], ◌∷◌, ◌++◌, leb, if◌then◌else◌,
  length, ℤ, negsuc, ltb_ℤ,
}
use khazar_os.CString.{Bytes, lit, str_eq, strncpy}

pub data PolicyAction : Type 0 where
  allow deny ask_user : PolicyAction

pub data PolicyMatch : Type 0 where
  match_exact match_pattern match_all : PolicyMatch

pub record PolicyRule : Type 0 where
  pub capability : Bytes
  pub agent_name : Bytes
  pub action : PolicyAction
  pub require_root : Bool
  pub match_type : PolicyMatch
  pub message : Bytes
  pub priority : ℤ

pub record PolicyRequest : Type 0 where
  pub id : ℕ
  pub agent_name : Bytes
  pub capability : Bytes
  pub target : Bytes

pub record PolicyResponse : Type 0 where
  pub id : ℕ
  pub action : PolicyAction
  pub reason : Bytes
  pub matched_rule : Bytes

unfoldable pub policy_action_str : PolicyAction → Bytes
policy_action_str allow = lit "allow"
policy_action_str deny = lit "deny"
policy_action_str ask_user = lit "ask_user"

unfoldable pub policy_action_from_str : Bytes → PolicyAction
unfolding str_eq
policy_action_from_str s =
    if str_eq s (lit "allow")
    then allow
    else if str_eq s (lit "deny")
    then deny
    else if str_eq s (lit "ask_user")
    then ask_user
    else deny

abbrev pub PolicyStore : Type 0
PolicyStore = List PolicyRule

abbrev pub max_policies : ℕ
max_policies = 512

abbrev pub policy_init : PolicyStore
policy_init = []

-- `fnmatch(pattern, name, 0) == 0` is POSIX's, a parameter of what matches.
unfoldable pub match_agent : (Bytes → Bytes → Bool) → Bytes → Bytes → Bool
match_agent fnmatch rule_pattern agent_name =
    if str_eq rule_pattern (lit "*")
    then true
    else if str_eq rule_pattern agent_name
    then true
    else fnmatch rule_pattern agent_name

unfoldable pub match_capability : Bytes → Bytes → Bool
match_capability rule_cap capability =
    if str_eq rule_cap (lit "*") then true else str_eq rule_cap capability

-- The new store, and whether the code returns 0.
unfoldable pub policy_add_rule : PolicyStore → PolicyRule → PolicyStore × Bool
policy_add_rule ps rule =
    if leb max_policies (length ps) then (ps, false) else (ps ++ rule ∷ [], true)

-- `best` and `best_prio` of the loop.
pub record Best : Type 0 where
  pub rule : Option PolicyRule
  pub prio : ℤ

-- The body of the loop, with its two `continue`s.
unfoldable pub consider : (Bytes → Bytes → Bool) → PolicyRequest → Best → PolicyRule → Best
consider fnmatch req b r =
    if not (match_capability r.capability req.capability) && not (str_eq r.capability (lit "*"))
    then b
    else if not (match_agent fnmatch r.agent_name req.agent_name)
    then b
    else if ltb_ℤ b.prio r.priority
    then record { rule = some r; prio = r.priority }
    else b

unfoldable pub scan : (Bytes → Bytes → Bool) → PolicyRequest → Best → PolicyStore → Best
scan fnmatch req b [] = b
scan fnmatch req b (r ∷ rs) = scan fnmatch req (consider fnmatch req b r) rs

abbrev pub no_best : Best
no_best = record { rule = none; prio = negsuc 0 }

-- The response is filled in twice: first the default, then from the best rule. `reason` holds 256
-- bytes and `matched_rule` 64.
unfoldable pub respond : PolicyRequest → Option PolicyRule → PolicyResponse
respond req none = record {
  id = req.id;
  action = deny;
  reason = strncpy 255 (lit "no matching policy rule");
  matched_rule = [];
}
respond req (some r) = record {
  id = req.id;
  action = r.action;
  reason = strncpy 255 r.message;
  matched_rule = strncpy 63 (lit "cap=" ++ (r.capability ++ (lit " agent=" ++ r.agent_name)));
}

unfoldable pub policy_check : (Bytes → Bytes → Bool) → PolicyStore → PolicyRequest → PolicyResponse
unfolding respond
policy_check fnmatch ps req = respond req (scan fnmatch req no_best ps).rule
