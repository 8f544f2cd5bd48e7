-- ===== src/RuleEngine/Rules/Added.antt =====
-- What the operations that add a rule do to a table (khazar/components/rule-engine/rules/rules.c).
use khazar_os.Common.{
  ◌≡◌, refl, ◌⊎◌, inl, inr, Bool, true, false, not, List, [], ◌∷◌, ◌++◌, leb, if◌then◌else◌, length,
  ℤ, pos,
}
use khazar_os.CString.{Bytes, strncpy}
use khazar_os.RuleEngine.Intent.{RuleSource, IntentType, intent_type_from_str}
use khazar_os.RuleEngine.Tokens.{TokenEntry, tokens_add}
use khazar_os.RuleEngine.Matcher.{RegexRule, matcher_add_rule}
use khazar_os.RuleEngine.Intents.{IntentEntry, intent_add}
use khazar_os.RuleEngine.Alias.{AliasEntry, alias_add}
use khazar_os.RuleEngine.Cache.{is_unknown}
use khazar_os.RuleEngine.Rules.{number_or, add_regex, add_token, add_intent, add_alias}

-- The table is as before, and the call fails, or it has one more entry, that of the source.
abbrev pub Adds {ℓ} : {A : Type ℓ} → (A → RuleSource) → RuleSource → List A → List A × Bool → Type ℓ
Adds {A = A} source_of source xs r =
    ((r.1 ≡ false) × (r.0 ≡ xs))
    ⊎ ((x : A) × (source_of x ≡ source) × (r.1 ≡ true) × (r.0 ≡ xs ++ x ∷ []))

Adds-if {ℓ} :
    {A : Type ℓ} (source_of : A → RuleSource) (source : RuleSource) (xs : List A) (b : Bool)
    {r s : List A × Bool}
    → Adds source_of source xs r
    → Adds source_of source xs s
    → Adds source_of source xs (if b then r else s)
Adds-if source_of source xs true h k = h
Adds-if source_of source xs false h k = k

abbrev failed {ℓ} :
    {A : Type ℓ} (source_of : A → RuleSource) (source : RuleSource) (xs : List A)
    → Adds source_of source xs (xs, false)
failed source_of source xs = inl (refl, refl)

abbrev pub regex_source : RegexRule → RuleSource
regex_source r = r.source

abbrev pub token_source : TokenEntry → RuleSource
token_source e = e.source

abbrev pub intent_source : IntentEntry → RuleSource
intent_source e = e.source

abbrev pub alias_source : AliasEntry → RuleSource
alias_source e = e.source

module _ (prepare : Bytes → Bytes) (source : RuleSource) where
  matcher_add_rule-Adds :
      (compiles : Bytes → Bool) (rules : List RegexRule) (pattern : Bytes) (t : IntentType) (n : ℤ)
      → Adds regex_source source rules (matcher_add_rule compiles rules pattern t n source)
  unfolding matcher_add_rule
  matcher_add_rule-Adds compiles rules pattern t n =
      Adds-if regex_source source rules (leb 1024 (length rules)) (failed regex_source source rules)
        (Adds-if regex_source source rules (not (compiles pattern))
          (failed regex_source source rules)
          (inr (
            record {
              regex = pattern;
              pattern = strncpy 127 pattern;
              intent = t;
              priority = n;
              source = source;
            },
            refl,
            refl,
            refl,
          )))

  pub add_regex-Adds :
      (compiles : Bytes → Bool) (fields : List Bytes) (rules : List RegexRule)
      → Adds regex_source source rules (add_regex prepare source compiles fields rules)
  unfolding add_regex
  add_regex-Adds compiles [] rules = failed regex_source source rules
  add_regex-Adds compiles (p ∷ []) rules = failed regex_source source rules
  add_regex-Adds compiles (p ∷ i ∷ fields) rules =
      let t = intent_type_from_str (prepare i) in
      Adds-if regex_source source rules (is_unknown t) (failed regex_source source rules)
        (matcher_add_rule-Adds compiles rules (prepare p) t (number_or (pos 10) fields))

  pub add_token-Adds :
      (fields : List Bytes) (tokens : List TokenEntry)
      → Adds token_source source tokens (add_token prepare source fields tokens)
  unfolding add_token tokens_add
  add_token-Adds [] tokens = failed token_source source tokens
  add_token-Adds (p ∷ []) tokens = failed token_source source tokens
  add_token-Adds (p ∷ i ∷ fields) tokens =
      let t = intent_type_from_str (prepare i) in
      Adds-if token_source source tokens (is_unknown t) (failed token_source source tokens) (
        Adds-if token_source source tokens (leb 1024 (length tokens))
          (failed token_source source tokens)
          (inr (
            record {
              token = strncpy 127 (prepare p);
              intent = t;
              weight = number_or (pos 5) fields;
              source = source;
            },
            refl,
            refl,
            refl,
          )))

  pub add_intent-Adds :
      (fields : List Bytes) (intents : List IntentEntry)
      → Adds intent_source source intents (add_intent prepare source fields intents)
  unfolding add_intent intent_add
  add_intent-Adds [] intents = failed intent_source source intents
  add_intent-Adds (q ∷ []) intents = failed intent_source source intents
  add_intent-Adds (q ∷ i ∷ fields) intents =
      let t = intent_type_from_str (prepare i) in
      Adds-if intent_source source intents (is_unknown t) (failed intent_source source intents) (
        Adds-if intent_source source intents (leb 2048 (length intents))
          (failed intent_source source intents) (inr (_, refl, refl, refl)))

  pub add_alias-Adds :
      (fields : List Bytes) (aliases : List AliasEntry)
      → Adds alias_source source aliases (add_alias prepare source fields aliases)
  unfolding add_alias alias_add
  add_alias-Adds [] aliases = failed alias_source source aliases
  add_alias-Adds (a ∷ []) aliases = failed alias_source source aliases
  add_alias-Adds (a ∷ c ∷ fields) aliases =
      Adds-if alias_source source aliases (leb 1024 (length aliases))
        (failed alias_source source aliases) (inr (_, refl, refl, refl))
