-- ===== src/IntentClassifier/Keywords.antt =====
-- The keywords of the intent classifier, for when the model does not answer:
-- khazar/components/intent-classifier/main.c.
pub mod Longest
use khazar_os.Common.{
  ℕ, zero, suc, ◌+◌, ◌-◌, ◌*◌, ◌/◌, ◌%◌, ◌^◌, ◌≤◌, ◌<◌, ◌≡◌, refl, sym, ap, ◌∙◌, ◌≢◌, ◌↔◌, ◌⊎◌, inl,
  inr, Bool, true, false, not, ◌&&◌, ◌||◌, Option, none, some, List, [], ◌∷◌, ◌++◌, map, arith, leb,
  ltb, ◌==◌, if◌then◌else◌, length, take, drop, get_or, get_elem?, set, ℤ, pos, negsuc, ltb_ℤ,
  pos_part, neg_part, sub_ℕ, ◌+ℤ◌, ◌≤ℤ◌, ◌<ℤ◌, ◌>>=◌, Bool-cases, Option-cases, length-append,
  length-set, replicate, ltb→lt, lt→ltb,
}
use khazar_os.CString.{
  Bytes, lit, str_eq, strncpy, has_prefix, strstr, is_some, contains, strchr, tolower, isspace,
  skip_spaces,
}
use khazar_os.Common.{first_max}
use khazar_os.IntentClassifier.Protocol.{Classified}

pub record KeywordRule : Type 0 where
  pub keyword : Bytes
  pub intent : Bytes
  pub target : Bytes

row : Bytes → Bytes → KeywordRule
row keyword intent = record { keyword = keyword; intent = intent; target = [] }

abbrev pub max_keyword_rules : ℕ
max_keyword_rules = 32

unfoldable pub rules : List KeywordRule
unfolding row
rules =
    row (lit "open") (lit "open_application")
    ∷ row (lit "launch") (lit "open_application")
    ∷ row (lit "start") (lit "open_application")
    ∷ row (lit "run") (lit "open_application")
    ∷ row (lit "close") (lit "close_application")
    ∷ row (lit "quit") (lit "close_application")
    ∷ row (lit "exit") (lit "close_application")
    ∷ row (lit "kill") (lit "close_application")
    ∷ row (lit "shutdown") (lit "system_shutdown")
    ∷ row (lit "power off") (lit "system_shutdown")
    ∷ row (lit "reboot") (lit "system_reboot")
    ∷ row (lit "restart") (lit "system_reboot")
    ∷ row (lit "volume up") (lit "volume_increase")
    ∷ row (lit "volume down") (lit "volume_decrease")
    ∷ row (lit "mute") (lit "volume_mute")
    ∷ row (lit "unmute") (lit "volume_unmute")
    ∷ row (lit "brightness up") (lit "brightness_increase")
    ∷ row (lit "brightness down") (lit "brightness_decrease")
    ∷ row (lit "wifi on") (lit "wifi_enable")
    ∷ row (lit "wifi off") (lit "wifi_disable")
    ∷ row (lit "bluetooth on") (lit "bluetooth_enable")
    ∷ row (lit "bluetooth off") (lit "bluetooth_disable")
    ∷ row (lit "screenshot") (lit "screenshot")
    ∷ row (lit "install") (lit "install_package")
    ∷ row (lit "uninstall") (lit "remove_package")
    ∷ row (lit "remove") (lit "remove_package")
    ∷ row (lit "update") (lit "update_system")
    ∷ row (lit "upgrade") (lit "update_system")
    ∷ row (lit "network status") (lit "network_status")
    ∷ row (lit "battery") (lit "battery_status")
    ∷ row (lit "lock") (lit "lock_screen")
    ∷ row (lit "suspend") (lit "system_suspend")
    ∷ []

unfoldable pub init_keyword_rules : List KeywordRule
unfolding rules
init_keyword_rules = take max_keyword_rules rules

unfoldable pub lower : ℕ → ℕ
lower c = if leb 65 c && leb c 90 then c + 32 else c

abbrev pub lower_query : Bytes → Bytes
lower_query query = map lower (take 2047 query)

-- strstr(lower, kw)
unfoldable pub occurs : Bytes → KeywordRule → Bool
unfolding strstr is_some
occurs text r = contains text r.keyword

abbrev pub keyword_length : KeywordRule → ℤ
keyword_length r = pos (length r.keyword)

-- if (*pos != '\0')
unfoldable pub or_unknown : Bytes → Bytes
or_unknown [] = lit "unknown"
or_unknown (c ∷ s) = strncpy 127 (c ∷ s)

-- What stands behind the keyword.
unfoldable pub behind_keyword : Bytes → Bytes → Bytes
unfolding strstr or_unknown
behind_keyword text keyword = elim (strstr text keyword) [
  | none ↦ []
  | some p ↦ or_unknown (skip_spaces (drop (length keyword) p))
]

-- The rule's target, unless it is empty.
unfoldable pub target_or : Bytes → Bytes → Bytes → Bytes
unfolding behind_keyword
target_or [] text keyword = behind_keyword text keyword
target_or (c ∷ t) text keyword = strncpy 127 (c ∷ t)

unfoldable pub target_of : Bytes → KeywordRule → Bytes
unfolding target_or
target_of text r = target_or r.target text r.keyword

unfoldable pub answer : Bytes → Option KeywordRule → Classified → Classified × Bool
unfolding target_of
answer text none resp = (resp, false)
answer text (some r) resp = (
  record resp {
    intent = strncpy 63 r.intent;
    target = target_of text r;
    confidence = lit "0.50";
    fallback = true;
  },
  true,
)

-- The response, whose texts are empty before, and whether the call returns 0.
unfoldable pub keyword_classify : List KeywordRule → Bytes → Classified → Classified × Bool
unfolding first_max occurs answer lower
keyword_classify keywords query resp =
    let text = lower_query query in
    answer text (first_max (occurs text) keyword_length none (pos 0) keywords) resp
