-- ===== src/RuleEngine/AddRule/Fresh.antt =====
-- The cache after a rule is added (khazar/components/rule-engine/main.c).
use khazar_os.Common.{
  ◌≡◌, refl, sym, ap, ◌∙◌, ◌⊎◌, inl, inr, Bool, true, false, List, arith, if◌then◌else◌,
  Option-cases,
}
use khazar_os.CString.{Bytes, lit, str_eq}
use khazar_os.RuleEngine.Intent.{RuleSource, runtime}
use khazar_os.RuleEngine.Cache.{cache_init}
use khazar_os.RuleEngine.Pipeline.{Tables}
use khazar_os.RuleEngine.Rules.{strtok}
use khazar_os.RuleEngine.Rules.Added.{
  Adds, add_regex-Adds, add_token-Adds, add_intent-Adds, add_alias-Adds,
}
use khazar_os.RuleEngine.AddRule.{
  protocol_parse_add_rule, Daemon, same_text, add_rule, finish, handle_add_rule,
}

Adds-kept {ℓ} :
    {A : Type ℓ} (source_of : A → RuleSource) (source : RuleSource) (xs : List A)
    (r : List A × Bool)
    → Adds source_of source xs r
    → r.1 ≡ false
    → r.0 ≡ xs
Adds-kept source_of source xs r (inl (n, e)) f = e
Adds-kept source_of source xs r (inr (x, s, y, e)) f = absurd (ground (arith, sym y ∙ f))

-- Not added, nothing changed.
Keeps : Tables → Tables × Bool → Type 0
Keeps t r = r.1 ≡ false → r.0 ≡ t

Keeps-if :
    (t : Tables) (b : Bool) (r s : Tables × Bool)
    → Keeps t r
    → Keeps t s
    → Keeps t (if b then r else s)
unfolding Keeps
Keeps-if t true r s h k = h
Keeps-if t false r s h k = k

add_rule-Keeps :
    (compiles : Bytes → Bool) (rule_type rule_data : Bytes) (t : Tables)
    → Keeps t (add_rule compiles rule_type rule_data t)
unfolding add_rule Keeps
add_rule-Keeps compiles rule_type rule_data t =
    let fields = strtok rule_data in
    let regex = add_regex-Adds same_text runtime compiles fields t.rules in
    let tokens = add_token-Adds same_text runtime fields t.tokens in
    let intents = add_intent-Adds same_text runtime fields t.intents in
    let aliases = add_alias-Adds same_text runtime fields t.aliases in
    Keeps-if t (str_eq rule_type (lit "regex")) _ _
      (λ f. ap (λ xs. record t { rules = xs }) (Adds-kept _ runtime t.rules _ regex f))
      (Keeps-if t (str_eq rule_type (lit "token")) _ _
        (λ f. ap (λ xs. record t { tokens = xs }) (Adds-kept _ runtime t.tokens _ tokens f))
        (Keeps-if t (str_eq rule_type (lit "intent")) _ _
          (λ f. ap (λ xs. record t { intents = xs }) (Adds-kept _ runtime t.intents _ intents f))
          (Keeps-if t (str_eq rule_type (lit "alias")) _ _
            (λ f. ap (λ xs. record t { aliases = xs }) (Adds-kept _ runtime t.aliases _ aliases f))
            (λ f. refl))))

-- The cache is empty, or neither the tables nor the cache has changed.
abbrev pub IsFresh : Daemon → Daemon → Type 0
IsFresh before after = (after.cache ≡ cache_init) ⊎ (after ≡ before)

finish-IsFresh :
    (d : Daemon) (rule_type : Bytes) (r : Tables × Bool)
    → Keeps d.tables r
    → IsFresh d (finish d.cache rule_type r).0
unfolding finish Keeps
finish-IsFresh d rule_type (tables, true) h = inl refl
finish-IsFresh d rule_type (tables, false) h = inr (ap (λ t. record d { tables = t }) (h refl))

-- After `handle_add_rule` the cache holds no answer from before the change: it is empty, or neither the tables nor the
-- cache has changed.
pub handle_add_rule-IsFresh :
    (compiles : Bytes → Bool) (message : Bytes) (d : Daemon)
    → IsFresh d (handle_add_rule compiles message d).0
unfolding handle_add_rule
handle_add_rule-IsFresh compiles message d = elim (Option-cases (protocol_parse_add_rule message)) [
  | inl e ↦ rw (handle_add_rule, e) (inr refl)
  | inr ((rule_type, rule_data), e) ↦
      rw (handle_add_rule, e)
        (finish-IsFresh d rule_type (add_rule compiles rule_type rule_data d.tables)
          (add_rule-Keeps compiles rule_type rule_data d.tables))
]
