-- ===== src/IntentClassifier/Keywords/Longest.antt =====
-- Which keyword decides (khazar/components/intent-classifier/main.c).
use khazar_os.Common.{
  ◌≤◌, ◌≡◌, refl, ◌⊎◌, inl, inr, Bool, true, false, none, List, [], ◌∷◌, arith, length, drop, pos,
  Option-cases,
}
use khazar_os.CString.{Bytes, strncpy, strstr, is_some, contains, skip_spaces}
use khazar_os.Common.{Best, NoneAbove, first_max_cases}
use khazar_os.IntentClassifier.Protocol.{Classified}
use khazar_os.IntentClassifier.Keywords.{
  KeywordRule, lower_query, occurs, keyword_length, or_unknown, behind_keyword, target_or,
  target_of, answer, keyword_classify,
}

-- No keyword of the list stands in the query.
abbrev pub NoKeyword : List KeywordRule → Bytes → Type 0
NoKeyword keywords query = NoneAbove (occurs (lower_query query)) keyword_length (pos 0) keywords

-- `k` is the first of the longest keywords that stand in the query.
abbrev pub IsLongest : List KeywordRule → Bytes → KeywordRule → Type 0
IsLongest keywords query k = Best (occurs (lower_query query)) keyword_length (pos 0) keywords k

abbrev pub Outcome : List KeywordRule → Bytes → Classified → Classified × Bool → Type 0
Outcome keywords query resp r =
    ((r.1 ≡ false) × (r.0 ≡ resp) × NoKeyword keywords query)
    ⊎ ((k : KeywordRule) × (r.1 ≡ true)
        × (r.0.intent ≡ strncpy 63 k.intent)
        × (1 ≤ length r.0.target)
        × (r.0.fallback ≡ true)
        × IsLongest keywords query k)

length-or_unknown_le : (s : Bytes) → 1 ≤ length (or_unknown s)
unfolding or_unknown
length-or_unknown_le [] = omega arith
length-or_unknown_le (c ∷ s) = omega arith

length-behind_keyword_le :
    (text keyword : Bytes) → contains text keyword ≡ true → 1 ≤ length (behind_keyword text keyword)
unfolding behind_keyword is_some
length-behind_keyword_le text keyword h = elim (Option-cases (strstr text keyword)) [
  | inl e ↦ absurd (ground (arith, e, h))
  | inr (p, e) ↦
      rw (behind_keyword, e) (length-or_unknown_le (skip_spaces (drop (length keyword) p)))
]

length-target_or_le :
    (target text keyword : Bytes)
    → contains text keyword ≡ true
    → 1 ≤ length (target_or target text keyword)
unfolding target_or
length-target_or_le [] text keyword h = length-behind_keyword_le text keyword h
length-target_or_le (c ∷ t) text keyword h = omega arith

length-target_of_le :
    (text : Bytes) (r : KeywordRule) → occurs text r ≡ true → 1 ≤ length (target_of text r)
unfolding target_of occurs
length-target_of_le text r h = length-target_or_le r.target text r.keyword h

-- `keyword_classify` takes the first of the longest keywords that stand in the lowered query, with the intent of its
-- rule and a target that is never empty; it fails, and leaves the response as it is, if none stands there.
pub keyword_classify-Outcome :
    (keywords : List KeywordRule) (query : Bytes) (resp : Classified)
    → Outcome keywords query resp (keyword_classify keywords query resp)
unfolding keyword_classify answer
keyword_classify-Outcome keywords query resp =
    let text = lower_query query in
    elim (first_max_cases (occurs text) keyword_length keywords none (pos 0)) [
      | inl (e, low) ↦ rw (answer, e) (inl (refl, refl, low))
      | inr (w, e, b) ↦
          rw (answer, e) (inr (w, refl, refl, length-target_of_le text w b.fitting, refl, b))
    ]
