-- ===== src/RuleEngine/Intent/Names.antt =====
-- The names of the intents and their reading.
use khazar_os.Common.{◌≡◌, refl, sym, ◌≢◌, ◌⊎◌, inl, inr, List, [], ◌∷◌, Bool-cases}
use khazar_os.CString.{Bytes, str_eq}
use khazar_os.CString.Laws.{str_eq_iff}
use khazar_os.RuleEngine.Intent.{
  IntentType, open_application, close_application, install_package, remove_package, search_package,
  system_update, system_shutdown, system_reboot, system_suspend, system_lock, system_hibernate,
  system_logout, network_enable, network_disable, network_status, volume_up, volume_down,
  volume_mute, volume_set, brightness_up, brightness_down, brightness_set, screenshot, file_open,
  file_search, window_minimize, window_maximize, notification_send, clipboard_copy, process_kill,
  unknown, known_intents, intent_type_str, first_named, intent_type_from_str,
}

-- Reading the name of an intent gives the intent back, for every intent.
pub intent_type_from_str-intent_type_str :
    (t : IntentType) → intent_type_from_str (intent_type_str t) ≡ t
unfolding intent_type_from_str first_named intent_type_str str_eq
intent_type_from_str-intent_type_str open_application = refl
intent_type_from_str-intent_type_str close_application = refl
intent_type_from_str-intent_type_str install_package = refl
intent_type_from_str-intent_type_str remove_package = refl
intent_type_from_str-intent_type_str search_package = refl
intent_type_from_str-intent_type_str system_update = refl
intent_type_from_str-intent_type_str system_shutdown = refl
intent_type_from_str-intent_type_str system_reboot = refl
intent_type_from_str-intent_type_str system_suspend = refl
intent_type_from_str-intent_type_str system_lock = refl
intent_type_from_str-intent_type_str system_hibernate = refl
intent_type_from_str-intent_type_str system_logout = refl
intent_type_from_str-intent_type_str network_enable = refl
intent_type_from_str-intent_type_str network_disable = refl
intent_type_from_str-intent_type_str network_status = refl
intent_type_from_str-intent_type_str volume_up = refl
intent_type_from_str-intent_type_str volume_down = refl
intent_type_from_str-intent_type_str volume_mute = refl
intent_type_from_str-intent_type_str volume_set = refl
intent_type_from_str-intent_type_str brightness_up = refl
intent_type_from_str-intent_type_str brightness_down = refl
intent_type_from_str-intent_type_str brightness_set = refl
intent_type_from_str-intent_type_str screenshot = refl
intent_type_from_str-intent_type_str file_open = refl
intent_type_from_str-intent_type_str file_search = refl
intent_type_from_str-intent_type_str window_minimize = refl
intent_type_from_str-intent_type_str window_maximize = refl
intent_type_from_str-intent_type_str notification_send = refl
intent_type_from_str-intent_type_str clipboard_copy = refl
intent_type_from_str-intent_type_str process_kill = refl
intent_type_from_str-intent_type_str unknown = refl

first_named-str :
    (s : Bytes) (ts : List IntentType)
    → (first_named s ts ≡ unknown) ⊎ (intent_type_str (first_named s ts) ≡ s)
unfolding first_named
first_named-str s [] = inl refl
first_named-str s (t ∷ ts) = elim (Bool-cases (str_eq s (intent_type_str t))) [
  | inl y ↦ inr (rw y (sym ((str_eq_iff s (intent_type_str t)).0 y)))
  | inr n ↦ rw n (first_named-str s ts)
]

-- A text that is read as an intent other than `INTENT_UNKNOWN` is the name of that intent.
pub intent_type_str-intent_type_from_str :
    (s : Bytes) → intent_type_from_str s ≢ unknown → intent_type_str (intent_type_from_str s) ≡ s
unfolding intent_type_from_str
intent_type_str-intent_type_from_str s k = elim (first_named-str s known_intents) [
  | inl e ↦ absurd (k e)
  | inr e ↦ e
]
