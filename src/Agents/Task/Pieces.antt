-- ===== src/Agents/Task/Pieces.antt =====
-- The texts that the agents cut out of a query: their lengths and their bytes.
use khazar_os.Common.{
  ℕ, ◌≤◌, ◌≡◌, inl, inr, false, List, [], ◌∷◌, arith, ◌==◌, length, drop, Option-cases,
}
use khazar_os.CString.{Bytes, lit, strstr, skip_spaces}
use khazar_os.Common.{All}
use khazar_os.CString.Lines.{all_spaces}
use khazar_os.CString.Laws.{length-take_le}
use khazar_os.CString.Pieces.{
  All-take, All-drop, All-if, All-skip_spaces, All-strstr, span_not-free,
}
use khazar_os.Agents.Task.{behind_word, trim_blanks, extract_str, query_of}

pub length-trim_blanks_le : (s : Bytes) → length (trim_blanks s) ≤ length s
unfolding trim_blanks
length-trim_blanks_le [] = omega arith
length-trim_blanks_le (c ∷ s) = ground (arith, length-trim_blanks_le s)

pub length-behind_word_le :
    (words : List Bytes) (query : Bytes) → length (behind_word words query) ≤ 127
unfolding behind_word
length-behind_word_le [] query = omega arith
length-behind_word_le (w ∷ words) query = elim (Option-cases (strstr query w)) [
  | inl e ↦ rw (e, behind_word) (length-behind_word_le words query)
  | inr (p, e) ↦ rw (e, behind_word) (length-take_le 127 (skip_spaces (drop (length w) p)))
]

module _ {ℓ} (P : ℕ → Type ℓ) where
  pub All-trim_blanks : (s : Bytes) → All P s → All P (trim_blanks s)
  unfolding trim_blanks
  All-trim_blanks [] h = tt
  All-trim_blanks (c ∷ s) (p, h) =
      All-if P (all_spaces (c ∷ s)) [] (c ∷ trim_blanks s) tt (p, All-trim_blanks s h)

  pub All-behind_word :
      (words : List Bytes) (query : Bytes) → All P query → All P (behind_word words query)
  unfolding behind_word
  All-behind_word [] query h = tt
  All-behind_word (w ∷ words) query h = elim (Option-cases (strstr query w)) [
    | inl e ↦ rw (e, behind_word) (All-behind_word words query h)
    | inr (p, e) ↦
        rw (e, behind_word)
          (All-take P 127 _
            (All-skip_spaces P _ (All-drop P (length w) p (All-strstr P query w p e h))))
  ]

-- The query of a message holds no quote.
pub query_of-free : (raw : Bytes) → All (λ c. (c == b'"') ≡ false) (query_of raw)
unfolding query_of extract_str
query_of-free raw = elim (Option-cases (strstr raw (lit "\"query\":\""))) [
  | inl e ↦ rw (e, query_of) tt
  | inr (p, e) ↦ rw (e, query_of) (span_not-free b'"' 2047 (drop 9 p))
]
