-- ===== src/Orchestrator/Registry.antt =====
-- The registry of agents: khazar/components/orchestrator/registry/registry.c. `agents[0 .. count)` is
-- a list, and `time(NULL)` an argument. The mutex is held through each operation.
pub mod Unique
pub mod Find
use khazar_os.Common.{
  ℕ, zero, suc, ◌+◌, ◌-◌, ◌*◌, ◌/◌, ◌%◌, ◌^◌, ◌≤◌, ◌<◌, ◌≡◌, refl, sym, ap, ◌∙◌, ◌≢◌, ◌↔◌, ◌⊎◌, inl,
  inr, Bool, true, false, not, ◌&&◌, ◌||◌, Option, none, some, List, [], ◌∷◌, ◌++◌, map, arith, leb,
  ltb, ◌==◌, if◌then◌else◌, length, take, drop, get_or, get_elem?, set, ℤ, pos, negsuc, ltb_ℤ,
  pos_part, neg_part, sub_ℕ, ◌+ℤ◌, ◌≤ℤ◌, ◌<ℤ◌, ◌>>=◌, Bool-cases, Option-cases, length-append,
  length-set, replicate, ltb→lt, lt→ltb,
}
use khazar_os.CString.{
  Bytes, lit, str_eq, strncpy, has_prefix, strstr, is_some, contains, strchr, tolower, isspace,
  skip_spaces,
}
use khazar_os.Common.{swap_out}
use khazar_os.Orchestrator.Agent.{AgentInfo}

abbrev pub Registry : Type 0
Registry = List AgentInfo

abbrev pub max_agents : ℕ
max_agents = 64

abbrev pub registry_init : Registry
registry_init = []

-- `*agent`, alive from now on
abbrev pub refresh : ℕ → AgentInfo → AgentInfo
refresh now agent = record agent { alive = true; last_heartbeat = now }

-- The first loop of `registry_register`: the first agent of that name is replaced.
unfoldable pub update : ℕ → AgentInfo → Registry → Option Registry
update now agent [] = none
update now agent (a ∷ reg) =
    let rest = update now agent reg in
    if str_eq a.name agent.name
    then some (refresh now agent ∷ reg)
    else elim rest [ none ↦ none | some r ↦ some (a ∷ r) ]

-- The new registry, and whether the call returns 0.
unfoldable pub registry_register : ℕ → Registry → AgentInfo → Registry × Bool
registry_register now reg agent = elim (update now agent reg) [
  | some reg' ↦ (reg', true)
  | none ↦
      if leb max_agents (length reg) then (reg, false) else (reg ++ refresh now agent ∷ [], true)
]

-- The loop of `registry_unregister`: the last agent takes the place of the first of that name.
unfoldable pub unregister : Bytes → Registry → Option Registry
unregister name [] = none
unregister name (a ∷ reg) =
    let rest = unregister name reg in
    if str_eq a.name name
    then some (swap_out (a ∷ reg))
    else elim rest [ none ↦ none | some r ↦ some (a ∷ r) ]

unfoldable pub registry_unregister : Registry → Bytes → Registry × Bool
registry_unregister reg name = elim (unregister name reg) [
  | some r ↦ (r, true)
  | none ↦ (reg, false)
]

-- The inner loop of `registry_find_by_capability`.
unfoldable pub has_capability : Bytes → List Bytes → Bool
has_capability capability [] = false
has_capability capability (c ∷ cs) = str_eq c capability || has_capability capability cs

-- The pointer into the array is the agent that it points to when the call returns.
unfoldable pub registry_find_by_capability : Registry → Bytes → Option AgentInfo
registry_find_by_capability [] capability = none
registry_find_by_capability (a ∷ reg) capability =
    if a.alive && has_capability capability a.capabilities
    then some a
    else registry_find_by_capability reg capability

unfoldable pub registry_find_by_name : Registry → Bytes → Option AgentInfo
registry_find_by_name [] name = none
registry_find_by_name (a ∷ reg) name =
    if str_eq a.name name then some a else registry_find_by_name reg name
