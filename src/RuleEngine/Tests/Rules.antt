-- ===== src/RuleEngine/Tests/Rules.antt =====
-- Rules from files and rules that are added at run time, at concrete texts.
use khazar_os.Common.{◌≡◌, refl, Bool, true, false, none, some, [], ◌∷◌, pos}
use khazar_os.CString.{Bytes, lit, str_eq}
use khazar_os.RuleEngine.Intent.{open_application, builtin}
use khazar_os.RuleEngine.Cache.{cache_init}
use khazar_os.RuleEngine.Pipeline.{Tables}
use khazar_os.RuleEngine.Rules.{strtok, RuleFiles, rules_load_all}
use khazar_os.RuleEngine.Rules.Reload.{rules_load_all-again}
use khazar_os.RuleEngine.AddRule.{Daemon, handle_add_rule}
use khazar_os.RuleEngine.AddRule.Fresh.{IsFresh, handle_add_rule-IsFresh}
use khazar_os.RuleEngine.Rules.{add_alias, add_token}
use khazar_os.RuleEngine.Intent.{intent_type_from_str, intent_type_str}
use khazar_os.RuleEngine.Tokens.{tokens_add, tokens_clear_rules}
use khazar_os.RuleEngine.Result.{keep, same_source}
use khazar_os.RuleEngine.Alias.{alias_add, alias_clear_rules}

abbrev compiles : Bytes → Bool
compiles pattern = true

abbrev tables : Tables
tables = record {
  intents = [];
  rules = [];
  tokens =
      record { token = lit "run"; intent = open_application; weight = pos 3; source = builtin }
      ∷ [];
  aliases = [];
  matches = λ pattern query. false;
  fuzzy = record { intents = []; threshold = record { num = 7; den = 10 } };
}

abbrev files : RuleFiles
files = record {
  regex_rules = none;
  token_rules = some (lit "# tokens\n start | open_application | 9 \n");
  intent_rules = none;
  alias_rules = some (lit "tg|telegram\n");
}

rules_load_all-again_example :
    rules_load_all compiles (some files) (rules_load_all compiles (some files) tables).0
    ≡ rules_load_all compiles (some files) tables
rules_load_all-again_example = rules_load_all-again compiles files tables

two_rules_test : (rules_load_all compiles (some files) tables).1 ≡ 2
unfolding rules_load_all add_token intent_type_from_str str_eq intent_type_str tokens_add
    tokens_clear_rules keep same_source add_alias alias_add alias_clear_rules
two_rules_test = refl

abbrev daemon : Daemon
daemon = record { tables = tables; cache = cache_init }

abbrev message : Bytes
message = lit "{\"type\":\"add_rule\",\"rule_type\":\"token\",\"data\":\"go|open_application|4\"}"

handle_add_rule-IsFresh_example : IsFresh daemon (handle_add_rule compiles message daemon).0
handle_add_rule-IsFresh_example = handle_add_rule-IsFresh compiles message daemon

-- An empty field is skipped, so what stands behind it moves forward.
empty_field_test :
    strtok (lit "open it|open_application||start")
    ≡ lit "open it" ∷ lit "open_application" ∷ lit "start" ∷ []
unfolding strtok
empty_field_test = refl
