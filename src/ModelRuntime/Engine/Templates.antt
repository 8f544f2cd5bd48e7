-- ===== src/ModelRuntime/Engine/Templates.antt =====
-- The text that the model runtime generates from a template, as the intent classifier reads it.
use mathlib.Core.Option.{some-injective}
use khazar_os.Common.{
  ◌≤◌, ◌≡◌, refl, inl, inr, Bool, true, false, not, ◌&&◌, Option, none, some, List, [], ◌∷◌, ◌++◌,
  map, arith, leb, length, ℤ, pos, ltb_ℤ, Bool-cases, length-append,
}
use khazar_os.CString.{Bytes, lit, str_eq, strncpy, has_prefix, strstr, strchr, tolower}
use khazar_os.Common.{All, first_max}
use khazar_os.CString.Quoted.{
  NoQuote, strstr_value, span_not-value, NoQuote-is_quote_free, is_quote_free,
}
use khazar_os.ModelRuntime.Inference.{Template, score, best_template, generated, mock_templates}
use khazar_os.IntentClassifier.Classify.{member_or, behind_quote}

-- The parts of a template.
pub record IsTemplate (t : Template) : Type 0 where
  pub intent_free : NoQuote t.intent_str
  pub intent_short : length t.intent_str ≤ 63
  pub intent_no_key : str_eq t.intent_str (lit "target") ≡ false
  pub target_free : NoQuote t.target_str
  pub target_short : length t.target_str ≤ 63
  pub action_short : length t.action_str ≤ 63

module _ (t : Template) (v : IsTemplate t) where
  pub member-intent :
      (old : Bytes) → member_or (generated (some t)) (lit "\"intent\"") 63 old ≡ t.intent_str
  unfolding member_or behind_quote generated strstr has_prefix strchr
  member-intent old = span_not-value 63 t.intent_str _ v.intent_free v.intent_short

  strstr-target :
      strstr (generated (some t)) (lit "\"target\"")
      ≡ some (
          lit "\"target\":\""
          ++ (t.target_str
              ++ (lit "\",\"action\":\"" ++ (t.action_str ++ lit "\",\"confidence\":0.85}"))))
  unfolding generated strstr has_prefix
  strstr-target =
      strstr_value (lit "target") t.intent_str _ (NoQuote-is_quote_free (lit "target") refl)
        v.intent_free v.intent_no_key

  pub member-target :
      (old : Bytes) → member_or (generated (some t)) (lit "\"target\"") 127 old ≡ t.target_str
  unfolding member_or behind_quote strchr
  member-target old =
      rw (strstr-target, behind_quote, member_or)
        (span_not-value 127 t.target_str _ v.target_free (omega (arith, v.target_short)))

  pub generated_bound : length (generated (some t)) ≤ 4095
  unfolding generated
  generated_bound = omega (
    arith,
    v.intent_short,
    v.target_short,
    v.action_short,
    length-append t.intent_str (
        lit "\",\"target\":\""
        ++ (t.target_str
            ++ (lit "\",\"action\":\"" ++ (t.action_str ++ lit "\",\"confidence\":0.85}")))),
    length-append t.target_str
        (lit "\",\"action\":\"" ++ (t.action_str ++ lit "\",\"confidence\":0.85}")),
    length-append t.action_str (lit "\",\"confidence\":0.85}"),
  )

abbrev is_template : Template → Bool
is_template t =
    is_quote_free t.intent_str
    && (leb (length t.intent_str) 63
        && (not (str_eq t.intent_str (lit "target"))
            && (is_quote_free t.target_str
                && (leb (length t.target_str) 63 && leb (length t.action_str) 63))))

split : (a b : Bool) → (a && b) ≡ true → (a ≡ true) × (b ≡ true)
split true b h = (refl, h)
split false b h = absurd (cc)

not-true : (b : Bool) → not b ≡ true → b ≡ false
not-true true h = absurd (cc)
not-true false h = refl

IsTemplate-is_template : (t : Template) → is_template t ≡ true → IsTemplate t
IsTemplate-is_template t h =
    let (a, h1) = split (is_quote_free t.intent_str) _ h in
    let (b, h2) = split (leb (length t.intent_str) 63) _ h1 in
    let (c, h3) = split (not (str_eq t.intent_str (lit "target"))) _ h2 in
    let (d, h4) = split (is_quote_free t.target_str) _ h3 in
    let (e, f) = split (leb (length t.target_str) 63) _ h4 in
    record {
      intent_free = NoQuote-is_quote_free t.intent_str a;
      intent_short = ground arith;
      intent_no_key = not-true _ c;
      target_free = NoQuote-is_quote_free t.target_str d;
      target_short = ground arith;
      action_short = ground arith;
    }

abbrev all_templates : List Template → Bool
all_templates [] = true
all_templates (t ∷ ts) = is_template t && all_templates ts

All-all_templates : (ts : List Template) → all_templates ts ≡ true → All IsTemplate ts
All-all_templates [] h = tt
All-all_templates (t ∷ ts) h =
    let (a, b) = split (is_template t) _ h in (IsTemplate-is_template t a, All-all_templates ts b)

All-mock_templates : All IsTemplate mock_templates
unfolding str_eq
All-mock_templates = All-all_templates mock_templates refl

first_max-All :
    (f : Template → Bool) (g : Template → ℤ) (ts : List Template)
    → All IsTemplate ts
    → (best : Option Template) (floor : ℤ) → ((t : Template) → best ≡ some t → IsTemplate t)
    → (t : Template) → first_max f g best floor ts ≡ some t
    → IsTemplate t
unfolding first_max
first_max-All f g [] h best floor k t e = k t e
first_max-All f g (x ∷ ts) (hx, h) best floor k t e = elim (Bool-cases (f x && ltb_ℤ floor (g x))) [
  | inl y ↦
      first_max-All f g ts h (some x) (g x) (λ u q. rw (some-injective _ _ q) at hx) t (rw y at e)
  | inr n ↦ first_max-All f g ts h best floor k t (rw n at e)
]

pub best_template-IsTemplate :
    (prompt : Bytes) (t : Template) → best_template prompt ≡ some t → IsTemplate t
unfolding best_template
best_template-IsTemplate prompt t e =
    first_max-All (λ u. true) (score (map tolower (strncpy 4095 prompt))) mock_templates
      All-mock_templates none (pos 0) (λ u q. absurd (cc)) t e
