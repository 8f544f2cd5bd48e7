-- ===== src/PolicyEngine/Check.antt =====
-- The decision of `policy_check` of khazar/components/policy-engine/policy/policy.c, described without
-- its loop.
use khazar_os.Common.{
  ◌≡◌, refl, ap, ◌∙◌, ◌↔◌, ◌⊎◌, inl, inr, Bool, true, Option, none, some, [], ◌∷◌, ◌++◌, arith, ℤ,
  pos, negsuc, ◌≤ℤ◌, ◌<ℤ◌,
}
use khazar_os.CString.{Bytes, lit, strncpy}
use khazar_os.CString.Laws.{str_eq_iff}
use khazar_os.Common.{All, All-mono}
use mathlib.Core.List.{map}
use khazar_os.PolicyEngine.Store.{
  PolicyMatch, deny, PolicyRule, PolicyRequest, PolicyResponse, PolicyStore, match_agent,
  match_capability, Best, consider, scan, no_best, respond, policy_check,
}

match_capability_iff : (c q : Bytes) → (match_capability c q ≡ true) ↔ ((c ≡ lit "*") ⊎ (c ≡ q))
unfolding match_capability
match_capability_iff c q = ground (arith, str_eq_iff c (lit "*"), str_eq_iff c q)

match_agent_iff :
    (fnmatch : Bytes → Bytes → Bool) (p a : Bytes)
    → (match_agent fnmatch p a ≡ true) ↔ ((p ≡ lit "*") ⊎ ((p ≡ a) ⊎ (fnmatch p a ≡ true)))
unfolding match_agent
match_agent_iff fnmatch p a = ground (arith, str_eq_iff p (lit "*"), str_eq_iff p a)

module _ (fnmatch : Bytes → Bytes → Bool) (req : PolicyRequest) where
  -- The rule speaks of the request.
  pub record Applies (r : PolicyRule) : Type 0 where
    pub capability_fits : (r.capability ≡ lit "*") ⊎ (r.capability ≡ req.capability)
    pub agent_fits :
        (r.agent_name ≡ lit "*")
        ⊎ ((r.agent_name ≡ req.agent_name) ⊎ (fnmatch r.agent_name req.agent_name ≡ true))

  -- `r` wins over what stands before it and behind it.
  pub record Wins (floor : ℤ) (ps : PolicyStore) (r : PolicyRule) : Type 0 where
    pub before : PolicyStore
    pub behind : PolicyStore
    pub splits : ps ≡ before ++ r ∷ behind
    pub applies : Applies r
    pub above : floor <ℤ r.priority
    pub before_lower : All (λ x. Applies x → x.priority <ℤ r.priority) before
    pub behind_le : All (λ x. Applies x → x.priority ≤ℤ r.priority) behind

  consider_cases :
      (b : Best) (r : PolicyRule)
      → ((consider fnmatch req b r ≡ b) × (Applies r → r.priority ≤ℤ b.prio))
        ⊎ ((consider fnmatch req b r ≡ record { rule = some r; prio = r.priority })
            × Applies r
            × (b.prio <ℤ r.priority))
  unfolding consider
  consider_cases b r = ground (
    arith,
    match_capability_iff r.capability req.capability,
    match_agent_iff fnmatch r.agent_name req.agent_name,
    str_eq_iff r.capability (lit "*"),
  )

  Wins-skip :
      {floor : ℤ} {ps : PolicyStore} {w : PolicyRule} (r : PolicyRule)
      → (Applies r → r.priority ≤ℤ floor)
      → Wins floor ps w
      → Wins floor (r ∷ ps) w
  Wins-skip r low w = record {
    before = r ∷ w.before;
    behind = w.behind;
    splits = ap (◌∷◌ r) w.splits;
    applies = w.applies;
    above = w.above;
    before_lower = (λ a. omega (arith, low a, w.above), w.before_lower);
    behind_le = w.behind_le;
  }

  Wins-raise :
      {floor : ℤ} {ps : PolicyStore} {w : PolicyRule} (r : PolicyRule)
      → floor <ℤ r.priority
      → Wins r.priority ps w
      → Wins floor (r ∷ ps) w
  Wins-raise r up w = record {
    before = r ∷ w.before;
    behind = w.behind;
    splits = ap (◌∷◌ r) w.splits;
    applies = w.applies;
    above = omega (arith, w.above);
    before_lower = (λ a. w.above, w.before_lower);
    behind_le = w.behind_le;
  }

  Wins-here :
      {floor : ℤ} {ps : PolicyStore} (r : PolicyRule)
      → floor <ℤ r.priority
      → Applies r
      → All (λ x. Applies x → x.priority ≤ℤ r.priority) ps
      → Wins floor (r ∷ ps) r
  Wins-here {ps = ps} r up a rest = record {
    before = [];
    behind = ps;
    splits = refl;
    applies = a;
    above = up;
    before_lower = tt;
    behind_le = rest;
  }

  scan_cases :
      (ps : PolicyStore) (b : Best)
      → ((scan fnmatch req b ps ≡ b) × All (λ x. Applies x → x.priority ≤ℤ b.prio) ps)
        ⊎ ((r : PolicyRule) × (scan fnmatch req b ps ≡ record { rule = some r; prio = r.priority })
            × Wins b.prio ps r)
  unfolding scan
  scan_cases [] b = inl (refl, tt)
  scan_cases (r ∷ ps) b = elim (consider_cases b r) [
    | inl (e, low) ↦ rw e (elim (scan_cases ps b) [
      | inl (s, rest) ↦ inl (s, (low, rest))
      | inr (w, s, v) ↦ inr (w, s, Wins-skip r low v)
    ])
    | inr (e, a, up) ↦ rw e (elim (scan_cases ps (record { rule = some r; prio = r.priority })) [
      | inl (s, rest) ↦ inr (r, s, Wins-here r up a rest)
      | inr (w, s, v) ↦ inr (w, s, Wins-raise r up v)
    ])
  ]

  -- The answer: `deny` when every fitting rule has a negative priority (so also when none fits),
  -- and else the action of the winning rule, with its message.
  abbrev pub IsDecision : PolicyStore → PolicyResponse → Type 0
  IsDecision ps resp =
      ((resp.action ≡ deny)
        × (resp.reason ≡ lit "no matching policy rule")
        × (resp.matched_rule ≡ [])
        × All (λ x. Applies x → x.priority <ℤ pos 0) ps)
      ⊎ ((r : PolicyRule) × (resp.action ≡ r.action)
          × (resp.reason ≡ strncpy 255 r.message)
          × Wins (negsuc 0) ps r)

  -- The response of `policy_check` carries the request's id. Its action and reason are those of the
  -- first of the fitting rules of highest priority, provided that this priority is at least 0. Where
  -- no fitting rule has such a priority it denies, and says that no rule matched.
  pub policy_check-IsDecision :
      (ps : PolicyStore)
      → ((policy_check fnmatch ps req).id ≡ req.id) × IsDecision ps (policy_check fnmatch ps req)
  unfolding policy_check
  policy_check-IsDecision ps = elim (scan_cases ps no_best) [
    | inl (s, low) ↦
        rw s (refl, inl (refl, refl, refl, All-mono ps (λ x h a. omega (arith, h a)) low))
    | inr (r, s, w) ↦ rw s (refl, inr (r, refl, refl, w))
  ]

-- The rule with other values of the two fields that `policy_check` does not read.
abbrev pub relabel : (PolicyRule → Bool) → (PolicyRule → PolicyMatch) → PolicyRule → PolicyRule
relabel root kind r = record r { require_root = root r; match_type = kind r }

module _ (fnmatch : Bytes → Bytes → Bool) (req : PolicyRequest) (root : PolicyRule → Bool)
    (kind : PolicyRule → PolicyMatch) where
  abbrev relabel_best : Best → Best
  relabel_best b = record {
    rule = elim b.rule [ none ↦ none | some r ↦ some (relabel root kind r) ];
    prio = b.prio;
  }

  consider-relabel :
      (b : Best) (r : PolicyRule)
      → consider fnmatch req (relabel_best b) (relabel root kind r)
        ≡ relabel_best (consider fnmatch req b r)
  unfolding consider
  consider-relabel b r = ground arith

  scan-relabel :
      (ps : PolicyStore) (b : Best)
      → scan fnmatch req (relabel_best b) (map (relabel root kind) ps)
        ≡ relabel_best (scan fnmatch req b ps)
  unfolding scan
  scan-relabel [] b = refl
  scan-relabel (r ∷ ps) b =
      ap (λ c. scan fnmatch req c (map (relabel root kind) ps)) (consider-relabel b r)
      ∙ scan-relabel ps (consider fnmatch req b r)

  respond-relabel :
      (o : Option PolicyRule)
      → respond req (elim o [ none ↦ none | some r ↦ some (relabel root kind r) ]) ≡ respond req o
  unfolding respond
  respond-relabel none = refl
  respond-relabel (some r) = refl

  -- `require_root` and `match_type` of the rules never change the answer of `policy_check`.
  pub policy_check-relabel :
      (ps : PolicyStore)
      → policy_check fnmatch (map (relabel root kind) ps) req ≡ policy_check fnmatch ps req
  unfolding policy_check
  policy_check-relabel ps =
      ap (λ (b : Best). respond req b.rule) (scan-relabel ps no_best)
      ∙ respond-relabel (scan fnmatch req no_best ps).rule
