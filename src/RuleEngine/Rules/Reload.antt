-- ===== src/RuleEngine/Rules/Reload.antt =====
-- Loading the rules again (khazar/components/rule-engine/rules/rules.c).
use khazar_os.Common.{
  ℕ, ◌+◌, ◌≡◌, refl, ap, ◌∙◌, inl, inr, Bool, false, not, ◌&&◌, Option, none, some, List, [], ◌∷◌,
  ◌++◌, arith, if◌then◌else◌, Bool-cases,
}
use khazar_os.CString.{Bytes}
use khazar_os.CString.Lines.{lines}
use khazar_os.RuleEngine.Intent.{RuleSource, file}
use khazar_os.RuleEngine.Result.{same_source, keep}
use khazar_os.RuleEngine.Tokens.{TokenEntry, tokens_clear_rules}
use khazar_os.RuleEngine.Matcher.{RegexRule, nonempty, matcher_clear_rules}
use khazar_os.RuleEngine.Intents.{IntentEntry, intent_clear_rules}
use khazar_os.RuleEngine.Alias.{AliasEntry, alias_clear_rules}
use khazar_os.RuleEngine.Pipeline.{Tables}
use khazar_os.RuleEngine.Rules.{
  trim, strtok, is_comment, load_line, load_lines, load_file, add_regex, add_token, add_intent,
  add_alias, rules_load_regex, rules_load_tokens, rules_load_intents, rules_load_aliases, RuleFiles,
  rules_load_all,
}
use khazar_os.RuleEngine.Rules.Added.{
  Adds, regex_source, token_source, intent_source, alias_source, add_regex-Adds, add_token-Adds,
  add_intent-Adds, add_alias-Adds,
}

keep_last {ℓ} :
    {A : Type ℓ} (p : A → Bool) (xs : List A) (x : A)
    → p x ≡ false
    → keep p (xs ++ x ∷ []) ≡ keep p xs
unfolding keep
keep_last p [] x h = rw h refl
keep_last p (y ∷ xs) x h = ap (λ ys. if p y then y ∷ ys else ys) (keep_last p xs x h)

keep-keep {ℓ} : {A : Type ℓ} (p : A → Bool) (xs : List A) → keep p (keep p xs) ≡ keep p xs
unfolding keep
keep-keep p [] = refl
keep-keep p (x ∷ xs) = elim (Bool-cases (p x)) [
  | inl y ↦ ground (arith, y, keep-keep p xs)
  | inr n ↦ ground (arith, n, keep-keep p xs)
]

module _ {A : Type 0} (source_of : A → RuleSource) (p : A → Bool)
    (drops : (x : A) → source_of x ≡ file → p x ≡ false) (add : List Bytes → List A → List A × Bool)
    (adds : (fields : List Bytes) (xs : List A) → Adds source_of file xs (add fields xs)) where
  keep-add : (fields : List Bytes) (xs : List A) → keep p (add fields xs).0 ≡ keep p xs
  keep-add fields xs = elim (adds fields xs) [
    | inl (n, e) ↦ ap (keep p) e
    | inr (x, s, y, e) ↦ ap (keep p) e ∙ keep_last p xs x (drops x s)
  ]

  keep-load_line :
      (line : Bytes) (xs : List A) (n : ℕ) → keep p (load_line add line (xs, n)).0 ≡ keep p xs
  unfolding load_line
  keep-load_line line xs n = elim (Bool-cases (is_comment (trim line))) [
    | inl y ↦ rw y refl
    | inr m ↦ rw m (keep-add (strtok (trim line)) xs)
  ]

  keep-load_lines :
      (ls : List Bytes) (state : List A × ℕ) → keep p (load_lines add ls state).0 ≡ keep p state.0
  unfolding load_lines
  keep-load_lines [] state = refl
  keep-load_lines (line ∷ ls) (xs, n) =
      keep-load_lines ls (load_line add line (xs, n)) ∙ keep-load_line line xs n

  keep-load_file : (f : Option Bytes) (xs : List A) → keep p (load_file add f xs).0 ≡ keep p xs
  unfolding load_file
  keep-load_file none xs = refl
  keep-load_file (some text) xs = keep-load_lines (lines 1023 text) (xs, 0)

  -- What a file has added is what is dropped before it is loaded again.
  pub cleared_again :
      (f : Option Bytes) (xs : List A) → keep p (load_file add f (keep p xs)).0 ≡ keep p xs
  cleared_again f xs = keep-load_file f (keep p xs) ∙ keep-keep p xs

from_file : (s : RuleSource) → s ≡ file → not (same_source s file) ≡ false
unfolding same_source
from_file s e = rw e refl

loaded :
    (Bytes → Bool)
    → RuleFiles
    → Tables
    → List RegexRule
    → List TokenEntry
    → List IntentEntry
    → List AliasEntry
    → Tables × ℕ
loaded compiles files t rules tokens intents aliases =
    let regex = rules_load_regex compiles files.regex_rules rules in
    let toks = rules_load_tokens files.token_rules tokens in
    let ints = rules_load_intents files.intent_rules intents in
    let als = rules_load_aliases files.alias_rules aliases in
    (
      record t { rules = regex.0; tokens = toks.0; intents = ints.0; aliases = als.0 },
      regex.1 + toks.1 + ints.1 + als.1,
    )

loaded-cong :
    (compiles : Bytes → Bool) (files : RuleFiles) (t : Tables) {r r' : List RegexRule}
    {k k' : List TokenEntry} {i i' : List IntentEntry} {a a' : List AliasEntry}
    → r ≡ r'
    → k ≡ k'
    → i ≡ i'
    → a ≡ a'
    → loaded compiles files t r k i a ≡ loaded compiles files t r' k' i' a'
loaded-cong compiles files t {r = r} {r' = r'} {k = k} {k' = k'} {i = i} {i' = i'} {a = a} {a' = a'}
      p q s u =
    ap (λ x. loaded compiles files t x k i a) p
    ∙ (ap (λ x. loaded compiles files t r' x i a) q
        ∙ (ap (λ x. loaded compiles files t r' k' x a) s
            ∙ ap (λ x. loaded compiles files t r' k' i' x) u))

-- Loading the rules again from the same files changes nothing: the tables and the number of rules loaded
-- are those of the first time, whatever the tables held before.
pub rules_load_all-again :
    (compiles : Bytes → Bool) (files : RuleFiles) (t : Tables)
    → rules_load_all compiles (some files) (rules_load_all compiles (some files) t).0
      ≡ rules_load_all compiles (some files) t
unfolding rules_load_all loaded matcher_clear_rules tokens_clear_rules intent_clear_rules
    alias_clear_rules
rules_load_all-again compiles files t =
    loaded-cong compiles files t
      (cleared_again regex_source (λ r. not (same_source r.source file) && nonempty r.pattern)
        (λ r e. ap (λ b. b && nonempty r.pattern) (from_file r.source e))
        (add_regex trim file compiles) (add_regex-Adds trim file compiles) files.regex_rules
        t.rules)
      (cleared_again token_source (λ e. not (same_source e.source file)) (λ e. from_file e.source)
        (add_token trim file) (add_token-Adds trim file) files.token_rules t.tokens)
      (cleared_again intent_source (λ e. not (same_source e.source file)) (λ e. from_file e.source)
        (add_intent trim file) (add_intent-Adds trim file) files.intent_rules t.intents)
      (cleared_again alias_source (λ e. not (same_source e.source file)) (λ e. from_file e.source)
        (add_alias trim file) (add_alias-Adds trim file) files.alias_rules t.aliases)
