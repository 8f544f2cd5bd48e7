-- ===== src/RuleEngine/Tests/Fuzzy.antt =====
-- The edit distance at concrete texts.
use khazar_os.Common.{◌≤◌, ◌≡◌, refl, take}
use khazar_os.CString.{lit}
use khazar_os.RuleEngine.Fuzzy.{levenshtein}
use khazar_os.RuleEngine.Fuzzy.Optimal.{Edits, done, delete, replace, levenshtein-Edits}

one_letter : Edits (take 126 (lit "ab")) (take 126 (lit "b")) 1
one_letter = delete 97 (replace 98 98 done)

levenshtein-Edits_example :
    Edits (take 126 (lit "ab")) (take 126 (lit "b")) (levenshtein (lit "ab") (lit "b"))
    × (levenshtein (lit "ab") (lit "b") ≤ 1)
levenshtein-Edits_example = levenshtein-Edits (lit "ab") (lit "b") 1 one_letter

levenshtein_test : levenshtein (lit "opne") (lit "open") ≡ 2
unfolding levenshtein
levenshtein_test = refl
