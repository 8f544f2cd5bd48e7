-- ===== src/Orchestrator/Registry/Find.antt =====
-- The registry as a finite map from names to agents, and the search by capability.
use khazar_os.Common.{
  ℕ, ◌≡◌, refl, ap, ◌∙◌, ◌↔◌, ◌⊎◌, inl, inr, true, ◌&&◌, Option, none, some, List, [], ◌∷◌, ◌++◌,
  arith, leb, if◌then◌else◌, length, Bool-cases, Option-cases,
}
use khazar_os.CString.{Bytes, str_eq}
use khazar_os.CString.Laws.{str_eq_comm, str_eq_iff, str_eq_refl}
use khazar_os.Common.{All, All-mono, last_or, drop_last, swap_out}
use khazar_os.Orchestrator.Agent.{AgentInfo}
use khazar_os.Orchestrator.Registry.{
  Registry, max_agents, refresh, update, registry_register, unregister, registry_unregister,
  has_capability, registry_find_by_capability, registry_find_by_name,
}
use khazar_os.Common.{All-last_or}
use khazar_os.Orchestrator.Registry.Unique.{
  NotNamed, OtherName, HasUniqueNames, unregister_cases, update_cases, update-none,
}

find-append :
    (reg : Registry) (a : AgentInfo) (n : Bytes)
    → All (NotNamed a.name) reg
    → registry_find_by_name (reg ++ a ∷ []) n
      ≡ (if str_eq a.name n then some a else registry_find_by_name reg n)
unfolding registry_find_by_name
find-append [] a n h = refl
find-append (b ∷ reg) a n h = ground (
  arith,
  find-append reg a n h.1,
  str_eq_iff a.name n,
  str_eq_iff b.name n,
  str_eq_iff b.name a.name,
  h.0,
)

update-nil : (now : ℕ) (agent : AgentInfo) {r : Registry} → update now agent [] ≡ some r → ⊥
unfolding update
update-nil now agent e = ground arith

unregister-nil : (name : Bytes) {r : Registry} → unregister name [] ≡ some r → ⊥
unfolding unregister
unregister-nil name e = ground arith

find-update :
    (now : ℕ) (agent : AgentInfo) (n : Bytes) (reg : Registry) {r : Registry}
    → update now agent reg ≡ some r
    → registry_find_by_name r n
      ≡ (if str_eq agent.name n then some (refresh now agent) else registry_find_by_name reg n)
unfolding registry_find_by_name
find-update now agent n [] e = absurd (update-nil now agent e)
find-update now agent n (a ∷ reg) e = elim (update_cases now agent a reg e) [
  | inl (y, d) ↦ rw (d, (str_eq_iff a.name agent.name).0 y) (ground arith)
  | inr (r', ne, f, d) ↦ rw d (
      ground (
        arith,
        find-update now agent n reg f,
        str_eq_iff a.name n,
        str_eq_iff agent.name n,
        str_eq_iff a.name agent.name,
      ))
]

-- A successful `registry_register` makes the agent the one found under its name, alive and seen
-- now, and changes nothing under any other name.
pub find-registry_register :
    (now : ℕ) (reg : Registry) (agent : AgentInfo) (n : Bytes)
    → (registry_register now reg agent).1 ≡ true
    → registry_find_by_name (registry_register now reg agent).0 n
      ≡ (if str_eq agent.name n then some (refresh now agent) else registry_find_by_name reg n)
unfolding registry_register
find-registry_register now reg agent n ok = elim (Option-cases (update now agent reg)) [
  | inr (r, e) ↦ rw (e, registry_register) (find-update now agent n reg e)
  | inl e ↦ elim (Bool-cases (leb max_agents (length reg))) [
    | inl full ↦ absurd (ground arith)
    | inr room ↦
        rw (e, registry_register)
          (rw room (find-append reg (refresh now agent) n (update-none now agent reg e)))
  ]
]

-- With unique names it does not matter which of them comes first.
find-last_or :
    (n : Bytes) (a : AgentInfo) (reg : Registry)
    → HasUniqueNames (a ∷ reg)
    → registry_find_by_name (last_or a reg ∷ drop_last (a ∷ reg)) n
      ≡ registry_find_by_name (a ∷ reg) n
unfolding registry_find_by_name last_or drop_last
find-last_or n a [] h = refl
find-last_or n a (b ∷ reg) h = ground (
  arith,
  find-last_or n b reg h.1,
  All-last_or (OtherName a) b reg h.0,
  str_eq_iff a.name n,
  str_eq_iff (last_or b reg).name n,
  str_eq_refl a.name,
  str_eq_iff a.name (last_or b reg).name,
)

find-swap_out :
    (n : Bytes) (a : AgentInfo) (reg : Registry)
    → HasUniqueNames (a ∷ reg)
    → registry_find_by_name (swap_out (a ∷ reg)) n ≡ registry_find_by_name reg n
unfolding swap_out
find-swap_out n a [] h = refl
find-swap_out n a (b ∷ reg) h = find-last_or n b reg h.1

-- A name that no agent has is not found.
find-NotNamed :
    (n : Bytes) (reg : Registry) → All (NotNamed n) reg → registry_find_by_name reg n ≡ none
unfolding registry_find_by_name
find-NotNamed n [] h = refl
find-NotNamed n (a ∷ reg) h = ground (arith, find-NotNamed n reg h.1, h.0)

NotNamed-OtherName :
    (a : AgentInfo) (name : Bytes) (reg : Registry)
    → a.name ≡ name
    → All (OtherName a) reg
    → All (NotNamed name) reg
NotNamed-OtherName a name reg e = All-mono reg (λ b o. rw (← e) (str_eq_comm b.name a.name ∙ o))

find-unregister :
    (name n : Bytes) (reg : Registry) {r : Registry}
    → unregister name reg ≡ some r
    → HasUniqueNames reg
    → registry_find_by_name r n ≡ (if str_eq name n then none else registry_find_by_name reg n)
unfolding registry_find_by_name
find-unregister name n [] e h = absurd (unregister-nil name e)
find-unregister name n (a ∷ reg) e h = elim (unregister_cases name a reg e) [
  | inl (y, d) ↦
      let same = (str_eq_iff a.name name).0 y in
      rw d (
        ground (
          arith,
          find-swap_out n a reg h,
          same,
          str_eq_iff name n,
          find-NotNamed name reg (NotNamed-OtherName a name reg same h.0),
        ))
  | inr (r', ne, f, d) ↦ rw d (
      ground (
        arith,
        find-unregister name n reg f h.1,
        str_eq_iff a.name n,
        str_eq_iff name n,
        str_eq_iff a.name name,
      ))
]

-- A successful `registry_unregister` of a registry with unique names makes the name unknown, and
-- changes nothing under any other name, although the last agent moves.
pub find-registry_unregister :
    (reg : Registry) (name n : Bytes)
    → HasUniqueNames reg
    → (registry_unregister reg name).1 ≡ true
    → registry_find_by_name (registry_unregister reg name).0 n
      ≡ (if str_eq name n then none else registry_find_by_name reg n)
unfolding registry_unregister
find-registry_unregister reg name n h ok = elim (Option-cases (unregister name reg)) [
  | inr (r, e) ↦ rw (e, registry_unregister) (find-unregister name n reg e h)
  | inl e ↦ absurd (ground arith)
]

-- The text is in the list.
abbrev pub Has : Bytes → List Bytes → Type 0
Has c [] = ⊥
Has c (x ∷ xs) = (x ≡ c) ⊎ Has c xs

-- What the search by capability looks for.
abbrev pub Serves : Bytes → AgentInfo → Type 0
Serves c a = (a.alive ≡ true) × Has c a.capabilities

has_capability_iff : (c : Bytes) (cs : List Bytes) → (has_capability c cs ≡ true) ↔ Has c cs
unfolding has_capability
has_capability_iff c [] = ground arith
has_capability_iff c (x ∷ xs) = ground (arith, has_capability_iff c xs, str_eq_iff x c)

-- `some a` is the first agent that serves the capability; `none` where none does.
abbrev pub IsFirst : Bytes → Registry → Option AgentInfo → Type 0
IsFirst c reg none = All (λ a. ¬ Serves c a) reg
IsFirst c reg (some a) =
    (before : Registry) × (behind : Registry) × (reg ≡ before ++ a ∷ behind)
    × Serves c a
    × All (λ b. ¬ Serves c b) before

IsFirst-cons :
    (c : Bytes) (a : AgentInfo) (reg : Registry) (o : Option AgentInfo)
    → ¬ Serves c a
    → IsFirst c reg o
    → IsFirst c (a ∷ reg) o
IsFirst-cons c a reg none no_a h = (no_a, h)
IsFirst-cons c a reg (some b) no_a (before, behind, e, s, n) =
    (a ∷ before, behind, ap (◌∷◌ a) e, s, (no_a, n))

-- The search by capability finds the first living agent that declares it; where it finds none, no
-- living agent declares it.
pub find_by_capability-IsFirst :
    (c : Bytes) (reg : Registry) → IsFirst c reg (registry_find_by_capability reg c)
unfolding registry_find_by_capability
find_by_capability-IsFirst c [] = tt
find_by_capability-IsFirst c (a ∷ reg) =
    let i = has_capability_iff c a.capabilities in
    elim (Bool-cases (a.alive && has_capability c a.capabilities)) [
      | inl y ↦ rw y ([], reg, refl, (ground arith, i.0 (ground arith)), tt)
      | inr n ↦
          rw n
            (IsFirst-cons c a reg _ (λ s. cc (n, s.0, i.1 s.1)) (find_by_capability-IsFirst c reg))
    ]
