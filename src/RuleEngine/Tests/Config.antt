-- ===== src/RuleEngine/Tests/Config.antt =====
-- The configuration of the rule engine from concrete lines.
use khazar_os.Common.{◌≡◌, refl, true, false, some, arith}
use khazar_os.CString.{lit, str_eq, isspace}
use khazar_os.Settings.{contents, is_true}
use khazar_os.RuleEngine.Config.{config_load, pair_of}
use khazar_os.RuleEngine.Config.Blank.{value_of, pair_of-blank}

pair_of-blank_example :
    (pair_of (lit "enable_cache= true\n") ≡ some (lit "enable_cache", value_of (lit "true\n")))
    × (is_true (value_of (lit "true\n")) ≡ false)
unfolding isspace
pair_of-blank_example =
    pair_of-blank b'e' (lit "nable_cache") (lit "true\n") (ground arith) (omega arith) refl refl

without_blank_test : (config_load (contents (lit "enable_cache=true\n"))).enable_cache ≡ true
unfolding config_load str_eq is_true
without_blank_test = refl

with_blank_test : (config_load (contents (lit "enable_cache= true\n"))).enable_cache ≡ false
unfolding config_load str_eq is_true
with_blank_test = refl
