-- ===== src/IntentClassifier/Tests.antt =====
-- The intent classifier at concrete queries.
use khazar_os.Common.{◌≡◌, refl, true, Option, none, some, List, [], ◌∷◌, arith}
use khazar_os.CString.{Bytes, lit, str_eq}
use khazar_os.IntentClassifier.Protocol.{Query}
use khazar_os.IntentClassifier.Keywords.{KeywordRule, init_keyword_rules, keyword_classify}
use khazar_os.IntentClassifier.Classify.{classify, client_handler, raw_text}
use khazar_os.IntentClassifier.Classify.Fallback.{ByKeyword, classify-ByKeyword}
use khazar_os.Orchestrator.IntentClient.{intent_client_classify}
use khazar_os.Orchestrator.IntentClient.EndToEnd.{Gets, intent_client_classify-Gets}
use khazar_os.IntentClassifier.Classify.{classify_with_runtime, failed, fall_back, finish}

abbrev no_value : Bytes → Option Bytes
no_value s = none

abbrev away : Bytes → Option Bytes
away request = none

abbrev two_rules : List KeywordRule
two_rules =
    record { keyword = lit "install"; intent = lit "install_package"; target = [] }
    ∷ record { keyword = lit "uninstall"; intent = lit "remove_package"; target = [] }
    ∷ []

abbrev query : Query
query = record { id = 1; query = lit "Uninstall vlc" }

classify-ByKeyword_example :
    ByKeyword init_keyword_rules
      (lit "Uninstall vlc")
      (classify no_value away true init_keyword_rules query)
classify-ByKeyword_example = classify-ByKeyword no_value away init_keyword_rules query refl

intent_client_classify-Gets_example : Gets two_rules (lit "Uninstall vlc") (
    intent_client_classify
      (λ m. some (client_handler no_value away true two_rules m))
      (lit "Uninstall vlc"))
unfolding str_eq
intent_client_classify-Gets_example =
    intent_client_classify-Gets no_value away two_rules (lit "Uninstall vlc") (ground arith)
      (omega arith) refl (ground arith)

uninstall_test :
    (classify no_value away true init_keyword_rules query).intent ≡ lit "remove_package"
unfolding classify finish classify_with_runtime failed fall_back keyword_classify init_keyword_rules
uninstall_test = refl

-- Of an escape other than of a quote, a newline or a backslash the backslash is kept and the byte is lost.
escape_test : raw_text (lit "{\"text\":\"a\\tb\"}") ≡ lit "a\\b"
unfolding raw_text
escape_test = refl
