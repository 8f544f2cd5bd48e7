-- ===== src/RuleEngine/Intent.antt =====
-- Intents: the types and functions of khazar/components/rule-engine/include/common.h.
pub mod Names
use khazar_os.Common.{
  ℕ, zero, suc, ◌+◌, ◌-◌, ◌*◌, ◌/◌, ◌%◌, ◌^◌, ◌≤◌, ◌<◌, ◌≡◌, refl, sym, ap, ◌∙◌, ◌≢◌, ◌↔◌, ◌⊎◌, inl,
  inr, Bool, true, false, not, ◌&&◌, ◌||◌, Option, none, some, List, [], ◌∷◌, ◌++◌, map, arith, leb,
  ltb, ◌==◌, if◌then◌else◌, length, take, drop, get_or, get_elem?, set, ℤ, pos, negsuc, ltb_ℤ,
  pos_part, neg_part, sub_ℕ, ◌+ℤ◌, ◌≤ℤ◌, ◌<ℤ◌, ◌>>=◌, Bool-cases, Option-cases, length-append,
  length-set, replicate, ltb→lt, lt→ltb,
}
use khazar_os.CString.{
  Bytes, lit, str_eq, strncpy, has_prefix, strstr, is_some, contains, strchr, tolower, isspace,
  skip_spaces,
}

pub data IntentType : Type 0 where
  open_application close_application install_package remove_package search_package : IntentType
  system_update system_shutdown system_reboot system_suspend system_lock : IntentType
  system_hibernate system_logout network_enable network_disable network_status : IntentType
  volume_up volume_down volume_mute volume_set brightness_up brightness_down : IntentType
  brightness_set screenshot file_open file_search window_minimize window_maximize : IntentType
  notification_send clipboard_copy process_kill unknown : IntentType

pub data RuleSource : Type 0 where
  builtin file runtime : RuleSource

pub data MatchSource : Type 0 where
  by_cache by_regex by_token by_intent by_alias by_fuzzy by_none : MatchSource

unfoldable pub intent_type_str : IntentType → Bytes
intent_type_str open_application = lit "open_application"
intent_type_str close_application = lit "close_application"
intent_type_str install_package = lit "install_package"
intent_type_str remove_package = lit "remove_package"
intent_type_str search_package = lit "search_package"
intent_type_str system_update = lit "system_update"
intent_type_str system_shutdown = lit "system_shutdown"
intent_type_str system_reboot = lit "system_reboot"
intent_type_str system_suspend = lit "system_suspend"
intent_type_str system_lock = lit "system_lock"
intent_type_str system_hibernate = lit "system_hibernate"
intent_type_str system_logout = lit "system_logout"
intent_type_str network_enable = lit "network_enable"
intent_type_str network_disable = lit "network_disable"
intent_type_str network_status = lit "network_status"
intent_type_str volume_up = lit "volume_up"
intent_type_str volume_down = lit "volume_down"
intent_type_str volume_mute = lit "volume_mute"
intent_type_str volume_set = lit "volume_set"
intent_type_str brightness_up = lit "brightness_up"
intent_type_str brightness_down = lit "brightness_down"
intent_type_str brightness_set = lit "brightness_set"
intent_type_str screenshot = lit "screenshot"
intent_type_str file_open = lit "file_open"
intent_type_str file_search = lit "file_search"
intent_type_str window_minimize = lit "window_minimize"
intent_type_str window_maximize = lit "window_maximize"
intent_type_str notification_send = lit "notification_send"
intent_type_str clipboard_copy = lit "clipboard_copy"
intent_type_str process_kill = lit "process_kill"
intent_type_str unknown = lit "unknown"

-- The values below `INTENT_UNKNOWN`, in the order of the enumeration.
abbrev pub known_intents : List IntentType
known_intents =
    open_application ∷ close_application ∷ install_package ∷ remove_package ∷ search_package
    ∷ system_update ∷ system_shutdown ∷ system_reboot ∷ system_suspend ∷ system_lock
    ∷ system_hibernate ∷ system_logout ∷ network_enable ∷ network_disable ∷ network_status
    ∷ volume_up ∷ volume_down ∷ volume_mute ∷ volume_set ∷ brightness_up ∷ brightness_down
    ∷ brightness_set ∷ screenshot ∷ file_open ∷ file_search ∷ window_minimize ∷ window_maximize
    ∷ notification_send ∷ clipboard_copy ∷ process_kill ∷ []

-- The loop of `intent_type_from_str`.
unfoldable pub first_named : Bytes → List IntentType → IntentType
first_named s [] = unknown
first_named s (t ∷ ts) = if str_eq s (intent_type_str t) then t else first_named s ts

unfoldable pub intent_type_from_str : Bytes → IntentType
unfolding first_named
intent_type_from_str s = first_named s known_intents

unfoldable pub intent_capability : IntentType → Bytes
intent_capability open_application = lit "open_application"
intent_capability close_application = lit "open_application"
intent_capability install_package = lit "install_package"
intent_capability remove_package = lit "install_package"
intent_capability search_package = lit "install_package"
intent_capability system_update = lit "install_package"
intent_capability system_shutdown = lit "system_management"
intent_capability system_reboot = lit "system_management"
intent_capability system_suspend = lit "system_management"
intent_capability system_lock = lit "system_management"
intent_capability system_hibernate = lit "system_management"
intent_capability system_logout = lit "system_management"
intent_capability network_enable = lit "network_management"
intent_capability network_disable = lit "network_management"
intent_capability network_status = lit "network_management"
intent_capability volume_up = lit "audio_control"
intent_capability volume_down = lit "audio_control"
intent_capability volume_mute = lit "audio_control"
intent_capability volume_set = lit "audio_control"
intent_capability brightness_up = lit "display_control"
intent_capability brightness_down = lit "display_control"
intent_capability brightness_set = lit "display_control"
intent_capability screenshot = lit "screenshot"
intent_capability file_open = lit "file_management"
intent_capability file_search = lit "file_management"
intent_capability window_minimize = lit "open_application"
intent_capability window_maximize = lit "open_application"
intent_capability notification_send = lit "notification"
intent_capability clipboard_copy = lit "screenshot"
intent_capability process_kill = lit "system_management"
intent_capability unknown = lit "unknown"
