-- ===== src/Orchestrator/Registry/Unique.antt =====
-- The names in the registry of khazar/components/orchestrator/registry/registry.c, and its size.
use khazar_os.Common.{
  ℕ, suc, ◌+◌, ◌≤◌, ◌≡◌, refl, ap, ◌∙◌, ◌⊎◌, inl, inr, true, false, none, some, [], ◌∷◌, ◌++◌,
  arith, leb, length, Bool-cases, Option-cases, length-append,
}
use khazar_os.CString.{Bytes, str_eq}
use khazar_os.CString.Laws.{str_eq_comm, str_eq_iff}
use khazar_os.Common.{
  All, All-mono, All-append, swap_out, AllPairs, All-swap_out, AllPairs-swap_out, length-swap_out,
}
use khazar_os.Orchestrator.Agent.{AgentInfo}
use khazar_os.Orchestrator.Registry.{
  Registry, max_agents, refresh, update, registry_register, unregister, registry_unregister,
}

abbrev pub NotNamed : Bytes → AgentInfo → Type 0
NotNamed name a = str_eq a.name name ≡ false

abbrev pub OtherName : AgentInfo → AgentInfo → Type 0
OtherName a b = str_eq a.name b.name ≡ false

abbrev pub HasUniqueNames : Registry → Type 0
HasUniqueNames reg = AllPairs OtherName reg

-- The two ways in which the loop of `unregister` ends at an agent.
pub unregister_cases :
    (name : Bytes) (a : AgentInfo) (reg : Registry) {r : Registry}
    → unregister name (a ∷ reg) ≡ some r
    → ((str_eq a.name name ≡ true) × (r ≡ swap_out (a ∷ reg)))
      ⊎ ((r' : Registry) × (str_eq a.name name ≡ false)
          × (unregister name reg ≡ some r')
          × (r ≡ a ∷ r'))
unfolding unregister
unregister_cases name a reg e = elim (Bool-cases (str_eq a.name name)) [
  | inl y ↦ inl (y, ground arith)
  | inr n ↦ elim (Option-cases (unregister name reg)) [
    | inl f ↦ absurd (ground arith)
    | inr (r', f) ↦ inr (r', n, f, ground arith)
  ]
]

pub All-unregister :
    (P : AgentInfo → Type 0) (name : Bytes) (reg : Registry) {r : Registry}
    → unregister name reg ≡ some r
    → All P reg
    → All P r
All-unregister P name [] e h = absurd (unfold unregister in ground arith)
All-unregister P name (a ∷ reg) e h = elim (unregister_cases name a reg e) [
  | inl (y, d) ↦ rw d (All-swap_out P a reg h.1)
  | inr (r', n, f, d) ↦ rw d (h.0, All-unregister P name reg f h.1)
]

OtherName-comm : (a b : AgentInfo) → OtherName a b → OtherName b a
OtherName-comm a b h = str_eq_comm b.name a.name ∙ h

unregister-HasUniqueNames :
    (name : Bytes) (reg : Registry) {r : Registry}
    → unregister name reg ≡ some r
    → HasUniqueNames reg
    → HasUniqueNames r
unregister-HasUniqueNames name [] e h = absurd (unfold unregister in ground arith)
unregister-HasUniqueNames name (a ∷ reg) e h = elim (unregister_cases name a reg e) [
  | inl (y, d) ↦ rw d (AllPairs-swap_out OtherName OtherName-comm a reg h.1)
  | inr (r', n, f, d) ↦
      rw d (All-unregister (OtherName a) name reg f h.0, unregister-HasUniqueNames name reg f h.1)
]

pub update_cases :
    (now : ℕ) (agent a : AgentInfo) (reg : Registry) {r : Registry}
    → update now agent (a ∷ reg) ≡ some r
    → ((str_eq a.name agent.name ≡ true) × (r ≡ refresh now agent ∷ reg))
      ⊎ ((r' : Registry) × (str_eq a.name agent.name ≡ false)
          × (update now agent reg ≡ some r')
          × (r ≡ a ∷ r'))
unfolding update
update_cases now agent a reg e = elim (Bool-cases (str_eq a.name agent.name)) [
  | inl y ↦ inl (y, ground arith)
  | inr n ↦ elim (Option-cases (update now agent reg)) [
    | inl f ↦ absurd (ground arith)
    | inr (r', f) ↦ inr (r', n, f, ground arith)
  ]
]

pub update-none :
    (now : ℕ) (agent : AgentInfo) (reg : Registry)
    → update now agent reg ≡ none
    → All (NotNamed agent.name) reg
unfolding update
update-none now agent [] e = tt
update-none now agent (a ∷ reg) e = elim (Bool-cases (str_eq a.name agent.name)) [
  | inl y ↦ absurd (ground arith)
  | inr n ↦ elim (Option-cases (update now agent reg)) [
    | inl f ↦ (n, update-none now agent reg f)
    | inr (r', f) ↦ absurd (ground arith)
  ]
]

update-OtherName :
    (x : AgentInfo) (now : ℕ) (agent : AgentInfo) (reg : Registry) {r : Registry}
    → update now agent reg ≡ some r
    → All (OtherName x) reg
    → All (OtherName x) r
update-OtherName x now agent [] e h = absurd (unfold update in ground arith)
update-OtherName x now agent (a ∷ reg) e h = elim (update_cases now agent a reg e) [
  | inl (y, d) ↦ rw d (cc ((str_eq_iff a.name agent.name).0 y), h.1)
  | inr (r', n, f, d) ↦ rw d (h.0, update-OtherName x now agent reg f h.1)
]

update-HasUniqueNames :
    (now : ℕ) (agent : AgentInfo) (reg : Registry) {r : Registry}
    → update now agent reg ≡ some r
    → HasUniqueNames reg
    → HasUniqueNames r
update-HasUniqueNames now agent [] e h = absurd (unfold update in ground arith)
update-HasUniqueNames now agent (a ∷ reg) e h = elim (update_cases now agent a reg e) [
  | inl (y, d) ↦ rw d (All-mono reg (λ b o. cc ((str_eq_iff a.name agent.name).0 y, o)) h.0, h.1)
  | inr (r', n, f, d) ↦
      rw d (update-OtherName a now agent reg f h.0, update-HasUniqueNames now agent reg f h.1)
]

length-update :
    (now : ℕ) (agent : AgentInfo) (reg : Registry) {r : Registry}
    → update now agent reg ≡ some r
    → length r ≡ length reg
length-update now agent [] e = absurd (unfold update in ground arith)
length-update now agent (a ∷ reg) e = elim (update_cases now agent a reg e) [
  | inl (y, d) ↦ rw d refl
  | inr (r', n, f, d) ↦ rw d (ap suc (length-update now agent reg f))
]

append-HasUniqueNames :
    (agent : AgentInfo) (reg : Registry)
    → All (NotNamed agent.name) reg
    → HasUniqueNames reg
    → HasUniqueNames (reg ++ agent ∷ [])
append-HasUniqueNames agent [] n h = (tt, tt)
append-HasUniqueNames agent (a ∷ reg) n h = (
  All-append (OtherName a) reg (agent ∷ []) h.0 (n.0, tt),
  append-HasUniqueNames agent reg n.1 h.1,
)

pub record IsValid (reg : Registry) : Type 0 where
  pub unique : HasUniqueNames reg
  pub fits : length reg ≤ max_agents

-- `registry_register` keeps the registry valid, whether or not it has room.
pub registry_register-IsValid :
    (now : ℕ) (reg : Registry) (agent : AgentInfo)
    → IsValid reg
    → IsValid (registry_register now reg agent).0
unfolding registry_register
registry_register-IsValid now reg agent v = elim (Option-cases (update now agent reg)) [
  | inr (r, e) ↦
      let n = length-update now agent reg e in
      rw (e, registry_register)
        (record {
          unique = update-HasUniqueNames now agent reg e v.unique;
          fits = omega (arith, n, v.fits);
        })
  | inl e ↦ elim (Bool-cases (leb max_agents (length reg))) [
    | inl full ↦ rw (e, registry_register) (rw full v)
    | inr room ↦
        rw (e, registry_register)
          (rw room (record {
            unique =
                append-HasUniqueNames (refresh now agent) reg (update-none now agent reg e)
                  v.unique;
            fits = ground (arith, length-append reg (refresh now agent ∷ []));
          }))
  ]
]

length-unregister :
    (name : Bytes) (reg : Registry) {r : Registry}
    → unregister name reg ≡ some r
    → length reg ≡ length r + 1
length-unregister name [] e = absurd (unfold unregister in ground arith)
length-unregister name (a ∷ reg) e = elim (unregister_cases name a reg e) [
  | inl (y, d) ↦ rw d (omega (arith, length-swap_out a reg))
  | inr (r', n, f, d) ↦ rw d (omega (arith, length-unregister name reg f))
]

-- `registry_unregister` keeps the registry valid.
pub registry_unregister-IsValid :
    (reg : Registry) (name : Bytes) → IsValid reg → IsValid (registry_unregister reg name).0
unfolding registry_unregister
registry_unregister-IsValid reg name v = elim (Option-cases (unregister name reg)) [
  | inr (r, e) ↦
      let n = length-unregister name reg e in
      rw (e, registry_unregister)
        (record {
          unique = unregister-HasUniqueNames name reg e v.unique;
          fits = omega (arith, n, v.fits);
        })
  | inl e ↦ rw (e, registry_unregister) v
]
