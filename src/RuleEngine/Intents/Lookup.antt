-- ===== src/RuleEngine/Intents/Lookup.antt =====
-- What is found for a query.
use khazar_os.Common.{
  ◌<◌, ◌≡◌, refl, ap, ◌∙◌, inl, inr, Bool, true, false, Option, none, some, List, [], ◌∷◌, ◌++◌,
  arith, leb, if◌then◌else◌, length, Bool-cases,
}
use khazar_os.CString.{Bytes, str_eq, strncpy}
use khazar_os.RuleEngine.Intent.{IntentType, RuleSource}
use khazar_os.RuleEngine.Intents.{
  IntentEntry, max_intent_entries, strtolower, found, find_entry, answer, intent_add, intent_lookup,
}

find_entry-append :
    (q : Bytes) (es : List IntentEntry) (e : IntentEntry)
    → find_entry q (es ++ e ∷ []) ≡ (elim (find_entry q es) [
      | some x ↦ some x
      | none ↦ if str_eq q (strtolower (strncpy 2047 e.query)) then some e else none
    ])
unfolding find_entry
find_entry-append q [] e = refl
find_entry-append q (x ∷ es) e = elim (Bool-cases (str_eq q (strtolower (strncpy 2047 x.query)))) [
  | inl y ↦ rw y refl
  | inr n ↦ rw n (find_entry-append q es e)
]

-- The entry that `intent_add` makes.
abbrev pub entry : Bytes → IntentType → Bytes → Bytes → RuleSource → IntentEntry
entry query intent target action source = record {
  query = strncpy 2047 query;
  intent = intent;
  target = strncpy 255 target;
  action = strncpy 127 action;
  source = source;
}

intent_add-room :
    (es : List IntentEntry) (query : Bytes) (intent : IntentType) (target action : Bytes)
    (source : RuleSource)
    → length es < max_intent_entries
    → (intent_add es query intent target action source).0
      ≡ es ++ entry query intent target action source ∷ []
unfolding intent_add
intent_add-room es query intent target action source room =
    let free : leb max_intent_entries (length es) ≡ false = ground arith in rw free refl

answer_cases :
    (o : Option IntentEntry) (e : IntentEntry) (b : Bool)
    → answer (elim o [ some x ↦ some x | none ↦ if b then some e else none ])
      ≡ (if (answer o).1 then answer o else if b then (found e, true) else answer o)
unfolding answer
answer_cases none e true = refl
answer_cases none e false = refl
answer_cases (some x) e b = refl

-- A query that already has an answer keeps it when an entry is added to a table with room; any other
-- is answered by the new entry exactly if it is equal to the entry's query up to the case of ASCII
-- letters, both cut to their buffers.
pub intent_lookup-intent_add :
    (es : List IntentEntry) (query : Bytes) (intent : IntentType) (target action : Bytes)
    (source : RuleSource) (p : Bytes)
    → length es < max_intent_entries
    → intent_lookup (intent_add es query intent target action source).0 p ≡ (
        if (intent_lookup es p).1
        then intent_lookup es p
        else if str_eq
            (strtolower (strncpy 2047 p))
            (strtolower (strncpy 2047 (strncpy 2047 query)))
        then (found (entry query intent target action source), true)
        else intent_lookup es p)
unfolding intent_lookup
intent_lookup-intent_add es query intent target action source p room =
    let q = strtolower (strncpy 2047 p) in
    let e = entry query intent target action source in
    ap (λ t. answer (find_entry q t)) (intent_add-room es query intent target action source room)
    ∙ ap answer (find_entry-append q es e)
    ∙ answer_cases (find_entry q es) e (str_eq q (strtolower (strncpy 2047 e.query)))
