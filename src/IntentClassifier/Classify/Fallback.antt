-- ===== src/IntentClassifier/Classify/Fallback.antt =====
-- Classifying while the model runtime is away (khazar/components/intent-classifier/main.c).
use khazar_os.Common.{
  ◌≤◌, ◌≡◌, refl, ap, ◌∙◌, ◌⊎◌, inl, inr, true, Option, none, some, List, length, Bool-cases,
}
use khazar_os.CString.{Bytes, lit, strncpy}
use khazar_os.IntentClassifier.Protocol.{Query, Classified}
use khazar_os.IntentClassifier.Keywords.{KeywordRule, answer, keyword_classify}
use khazar_os.IntentClassifier.Keywords.Longest.{NoKeyword, IsLongest, keyword_classify-Outcome}
use khazar_os.IntentClassifier.Classify.{
  inference_request, failed, classify_with_runtime, fall_back, blank, finish, classify,
}

-- The classification by the keywords alone.
abbrev pub ByKeyword : List KeywordRule → Bytes → Classified → Type 0
ByKeyword keywords query r =
    ((r.intent ≡ lit "unknown") × (r.target ≡ lit "unknown") × NoKeyword keywords query)
    ⊎ ((k : KeywordRule) × (r.intent ≡ strncpy 63 k.intent)
        × (1 ≤ length r.target)
        × IsLongest keywords query k)

fall_back-ByKeyword :
    (keywords : List KeywordRule) (query : Bytes) (resp : Classified)
    → ByKeyword keywords query (fall_back keywords query resp)
unfolding fall_back
fall_back-ByKeyword keywords query resp = elim (keyword_classify-Outcome keywords query resp) [
  | inl (n, e, low) ↦ rw n (inl (refl, refl, low))
  | inr (k, y, i, t, f, best) ↦ rw y (inr (k, i, t, best))
]

finish-failed :
    (keywords : List KeywordRule) (req : Query) (resp : Classified)
    → finish true keywords req (failed resp) ≡ fall_back keywords req.query (failed resp)
unfolding finish failed
finish-failed keywords req resp = refl

answer-id :
    (text : Bytes) (o : Option KeywordRule) (resp : Classified)
    → (answer text o resp).0.id ≡ resp.id
unfolding answer
answer-id text none resp = refl
answer-id text (some r) resp = refl

fall_back-id :
    (keywords : List KeywordRule) (query : Bytes) (resp : Classified)
    → (fall_back keywords query resp).id ≡ resp.id
unfolding fall_back
fall_back-id keywords query resp = elim (Bool-cases (keyword_classify keywords query resp).1) [
  | inl y ↦ rw y (unfold keyword_classify in answer-id _ _ resp)
  | inr n ↦ rw n refl
]

module _ (atof : Bytes → Option Bytes) (runtime : Bytes → Option Bytes) where
  classify_with_runtime-none :
      (query : Bytes) (resp : Classified)
      → runtime (inference_request query) ≡ none
      → classify_with_runtime atof runtime query resp ≡ failed resp
  unfolding classify_with_runtime
  classify_with_runtime-none query resp e = rw (classify_with_runtime, e) refl

  classify-fall_back :
      (keywords : List KeywordRule) (req : Query)
      → runtime (inference_request req.query) ≡ none
      → classify atof runtime true keywords req ≡ fall_back keywords req.query (failed (blank req))
  unfolding classify
  classify-fall_back keywords req e =
      ap (finish true keywords req) (classify_with_runtime-none req.query (blank req) e)
      ∙ finish-failed keywords req (blank req)

  -- The answer by the keywords is for the query's number.
  pub classify-id :
      (keywords : List KeywordRule) (req : Query)
      → runtime (inference_request req.query) ≡ none
      → (classify atof runtime true keywords req).id ≡ req.id
  unfolding failed
  classify-id keywords req e =
      ap (λ r. r.id) (classify-fall_back keywords req e)
      ∙ fall_back-id keywords req.query (failed (blank req))

  -- While the model runtime does not answer, and the configuration lets the classifier fall back, a query gets the intent of
  -- the first of the longest keywords that stand in it and a target that is not empty, or the intent "unknown" and the
  -- target "unknown" if no keyword stands there.
  pub classify-ByKeyword :
      (keywords : List KeywordRule) (req : Query)
      → runtime (inference_request req.query) ≡ none
      → ByKeyword keywords req.query (classify atof runtime true keywords req)
  classify-ByKeyword keywords req e =
      rw (classify-fall_back keywords req e)
        (fall_back-ByKeyword keywords req.query (failed (blank req)))
