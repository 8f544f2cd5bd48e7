-- ===== src/RuleEngine/Rules.antt =====
-- The rules that are read from files: khazar/components/rule-engine/rules/rules.c. A file is its text, or
-- nothing if it cannot be opened; `regcomp` is a parameter. A line that holds only a newline adds
-- nothing, as an empty one.
pub mod Added
pub mod Reload
use khazar_os.Common.{
  ℕ, zero, suc, ◌+◌, ◌-◌, ◌*◌, ◌/◌, ◌%◌, ◌^◌, ◌≤◌, ◌<◌, ◌≡◌, refl, sym, ap, ◌∙◌, ◌≢◌, ◌↔◌, ◌⊎◌, inl,
  inr, Bool, true, false, not, ◌&&◌, ◌||◌, Option, none, some, List, [], ◌∷◌, ◌++◌, map, arith, leb,
  ltb, ◌==◌, if◌then◌else◌, length, take, drop, get_or, get_elem?, set, ℤ, pos, negsuc, ltb_ℤ,
  pos_part, neg_part, sub_ℕ, ◌+ℤ◌, ◌≤ℤ◌, ◌<ℤ◌, ◌>>=◌, Bool-cases, Option-cases, length-append,
  length-set, replicate, ltb→lt, lt→ltb,
}
use khazar_os.CString.{
  Bytes, lit, str_eq, strncpy, has_prefix, strstr, is_some, contains, strchr, tolower, isspace,
  skip_spaces,
}
use khazar_os.CString.Lines.{lines, atoi}
use khazar_os.RuleEngine.Intent.{RuleSource, file, IntentType, intent_type_from_str}
use khazar_os.RuleEngine.Tokens.{TokenEntry, tokens_add, tokens_clear_rules}
use khazar_os.RuleEngine.Matcher.{RegexRule, matcher_add_rule, matcher_clear_rules}
use khazar_os.RuleEngine.Intents.{IntentEntry, intent_add, intent_clear_rules}
use khazar_os.RuleEngine.Alias.{AliasEntry, alias_add, alias_clear_rules}
use khazar_os.RuleEngine.Cache.{is_unknown}
use khazar_os.RuleEngine.Pipeline.{Tables}

-- while (*start == ' ' || *start == '\t') start++
unfoldable pub trim_start : Bytes → Bytes
trim_start [] = []
trim_start (c ∷ s) = let rest = trim_start s in if c == b' ' || c == b'\t' then rest else c ∷ s

unfoldable pub all_white : Bytes → Bool
all_white [] = true
all_white (c ∷ s) = (c == b' ' || c == b'\t' || c == b'\n' || c == b'\r') && all_white s

-- The loop from the last byte on, which leaves the first byte.
unfoldable pub trim_tail : Bytes → Bytes
unfolding all_white
trim_tail [] = []
trim_tail (c ∷ s) = let rest = trim_tail s in if all_white s then c ∷ [] else c ∷ rest

unfoldable pub trim : Bytes → Bytes
unfolding trim_start trim_tail
trim s = trim_tail (trim_start s)

-- A field that holds a byte, before the others.
unfoldable pub push : Bytes → List Bytes → List Bytes
push [] fields = fields
push (c ∷ s) fields = (c ∷ s) ∷ fields

-- The fields that calls of strtok with "|" give one after the other, behind the beginning of one.
unfoldable pub strtok_from : Bytes → Bytes → List Bytes
unfolding push
strtok_from begun [] = push begun []
strtok_from begun (c ∷ s) =
    let more = strtok_from (begun ++ c ∷ []) s in
    let rest = strtok_from [] s in if c == b'|' then push begun rest else more

unfoldable pub strtok : Bytes → List Bytes
unfolding strtok_from
strtok s = strtok_from [] s

-- priority_s ? atoi(priority_s) : default
unfoldable pub number_or : ℤ → List Bytes → ℤ
unfolding atoi
number_or default [] = default
number_or default (s ∷ fields) = atoi s

-- target ? target : ""
unfoldable pub text_or_empty : List Bytes → Bytes
text_or_empty [] = []
text_or_empty (s ∷ fields) = s

abbrev pub behind_first : List Bytes → List Bytes
behind_first fields = drop 1 fields

-- The fields of a rule into its table, `prepare` being applied to the texts, and whether it was added.
module _ (prepare : Bytes → Bytes) (source : RuleSource) where
  unfoldable pub add_regex : (Bytes → Bool) → List Bytes → List RegexRule → List RegexRule × Bool
  unfolding number_or is_unknown
  add_regex compiles (pattern ∷ intent ∷ fields) rules =
      let t = intent_type_from_str (prepare intent) in
      let added =
        matcher_add_rule compiles rules (prepare pattern) t (number_or (pos 10) fields) source in
      if is_unknown t then (rules, false) else added
  add_regex compiles _ rules = (rules, false)

  unfoldable pub add_token : List Bytes → List TokenEntry → List TokenEntry × Bool
  unfolding number_or is_unknown
  add_token (token ∷ intent ∷ fields) tokens =
      let t = intent_type_from_str (prepare intent) in
      let added = tokens_add tokens (prepare token) t (number_or (pos 5) fields) source in
      if is_unknown t then (tokens, false) else added
  add_token _ tokens = (tokens, false)

  unfoldable pub add_intent : List Bytes → List IntentEntry → List IntentEntry × Bool
  unfolding text_or_empty is_unknown
  add_intent (query ∷ intent ∷ fields) intents =
      let t = intent_type_from_str (prepare intent) in
      let target = prepare (text_or_empty fields) in
      let action = prepare (text_or_empty (behind_first fields)) in
      let added = intent_add intents (prepare query) t target action source in
      if is_unknown t then (intents, false) else added
  add_intent _ intents = (intents, false)

  unfoldable pub add_alias : List Bytes → List AliasEntry → List AliasEntry × Bool
  add_alias (alias ∷ canonical ∷ fields) aliases =
      alias_add aliases (prepare alias) (prepare canonical) source
  add_alias _ aliases = (aliases, false)

-- line[0] == '#' || line[0] == '\0'
unfoldable pub is_comment : Bytes → Bool
is_comment [] = true
is_comment (c ∷ s) = c == b'#'

-- A round of the loop over the lines: the table, and how many rules were added.
unfoldable pub load_line {ℓ} : {T : Type ℓ} → (List Bytes → T → T × Bool) → Bytes → T × ℕ → T × ℕ
unfolding trim strtok is_comment
load_line add line (t, count) =
    let (t', added) = add (strtok (trim line)) t in
    if is_comment (trim line) then (t, count) else (t', if added then suc count else count)

unfoldable pub load_lines {ℓ} :
    {T : Type ℓ} → (List Bytes → T → T × Bool) → List Bytes → T × ℕ → T × ℕ
unfolding load_line
load_lines add [] state = state
load_lines add (line ∷ rest) state = load_lines add rest (load_line add line state)

unfoldable pub load_file {ℓ} : {T : Type ℓ} → (List Bytes → T → T × Bool) → Option Bytes → T → T × ℕ
unfolding load_lines lines
load_file add none t = (t, 0)
load_file add (some text) t = load_lines add (lines 1023 text) (t, 0)

abbrev pub rules_load_regex : (Bytes → Bool) → Option Bytes → List RegexRule → List RegexRule × ℕ
rules_load_regex compiles = load_file (add_regex trim file compiles)

abbrev pub rules_load_tokens : Option Bytes → List TokenEntry → List TokenEntry × ℕ
rules_load_tokens = load_file (add_token trim file)

abbrev pub rules_load_intents : Option Bytes → List IntentEntry → List IntentEntry × ℕ
rules_load_intents = load_file (add_intent trim file)

abbrev pub rules_load_aliases : Option Bytes → List AliasEntry → List AliasEntry × ℕ
rules_load_aliases = load_file (add_alias trim file)

-- The four files of the directory of rules.
pub record RuleFiles : Type 0 where
  pub regex_rules : Option Bytes
  pub token_rules : Option Bytes
  pub intent_rules : Option Bytes
  pub alias_rules : Option Bytes

-- The directory's files, or nothing if no directory is set; the tables, and the number of rules added.
unfoldable pub rules_load_all : (Bytes → Bool) → Option RuleFiles → Tables → Tables × ℕ
unfolding load_file
rules_load_all compiles none t = (t, 0)
rules_load_all compiles (some files) t =
    let regex = rules_load_regex compiles files.regex_rules (matcher_clear_rules t.rules file) in
    let tokens = rules_load_tokens files.token_rules (tokens_clear_rules t.tokens file) in
    let intents = rules_load_intents files.intent_rules (intent_clear_rules t.intents file) in
    let aliases = rules_load_aliases files.alias_rules (alias_clear_rules t.aliases file) in
    (
      record t { rules = regex.0; tokens = tokens.0; intents = intents.0; aliases = aliases.0 },
      regex.1 + tokens.1 + intents.1 + aliases.1,
    )
