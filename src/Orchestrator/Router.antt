-- ===== src/Orchestrator/Router.antt =====
-- The keyword router: khazar/components/orchestrator/router/router.c. Its table is filled once, from
-- the pairs of `router_init`, and never changed.
pub mod Keywords
use Prim.Native.String.{String}
use khazar_os.Common.{
  ℕ, zero, suc, ◌+◌, ◌-◌, ◌*◌, ◌/◌, ◌%◌, ◌^◌, ◌≤◌, ◌<◌, ◌≡◌, refl, sym, ap, ◌∙◌, ◌≢◌, ◌↔◌, ◌⊎◌, inl,
  inr, Bool, true, false, not, ◌&&◌, ◌||◌, Option, none, some, List, [], ◌∷◌, ◌++◌, map, arith, leb,
  ltb, ◌==◌, if◌then◌else◌, length, take, drop, get_or, get_elem?, set, ℤ, pos, negsuc, ltb_ℤ,
  pos_part, neg_part, sub_ℕ, ◌+ℤ◌, ◌≤ℤ◌, ◌<ℤ◌, ◌>>=◌, Bool-cases, Option-cases, length-append,
  length-set, replicate, ltb→lt, lt→ltb,
}
use khazar_os.CString.{
  Bytes, lit, str_eq, strncpy, has_prefix, strstr, is_some, contains, strchr, tolower, isspace,
  skip_spaces,
}
use khazar_os.Orchestrator.Message.{Request, Intent}

pub record KeywordEntry : Type 0 where
  pub keyword : Bytes
  pub capability : Bytes

abbrev entry : String → String → KeywordEntry
entry k c = record { keyword = lit k; capability = lit c }

abbrev pub max_keywords : ℕ
max_keywords = 32

-- `pairs` of `router_init`
abbrev pub pairs : List KeywordEntry
pairs =
    entry "ac" "open_application"
    ∷ entry "aç" "open_application"
    ∷ entry "bagla" "close_application"
    ∷ entry "bağla" "close_application"
    ∷ entry "qur" "install_package"
    ∷ entry "kur" "install_package"
    ∷ entry "install" "install_package"
    ∷ entry "sil" "remove_package"
    ∷ entry "remove" "remove_package"
    ∷ entry "ara" "search_package"
    ∷ entry "search" "search_package"
    ∷ entry "wifi" "network_management"
    ∷ entry "shutdown" "system_management"
    ∷ entry "reboot" "system_management"
    ∷ entry "baglat" "system_management"
    ∷ entry "bağlat" "system_management"
    ∷ entry "yeniden baslat" "system_management"
    ∷ entry "yenidən başlat" "system_management"
    ∷ entry "kilidle" "system_management"
    ∷ entry "kilidlə" "system_management"
    ∷ entry "lock" "system_management"
    ∷ entry "ses" "audio_control"
    ∷ entry "səs" "audio_control"
    ∷ entry "volume" "audio_control"
    ∷ entry "mute" "audio_control"
    ∷ entry "parlaqliq" "brightness_control"
    ∷ entry "parlaqlıq" "brightness_control"
    ∷ entry "brightness" "brightness_control"
    ∷ entry "screenshot" "screenshot"
    ∷ entry "ekran" "screenshot"
    ∷ entry "update" "system_update"
    ∷ entry "yenile" "system_update"
    ∷ entry "yenilə" "system_update"
    ∷ []

-- The loop of `router_init` stops at `MAX_KEYWORDS` entries. Every text fits its buffer.
unfoldable pub router_init : List KeywordEntry
router_init = take max_keywords pairs

-- Only ASCII letters are lowered.
unfoldable pub lower : ℕ → ℕ
lower c = if leb b'A' c && leb c b'Z' then c + 32 else c

unfoldable pub lower_query : Bytes → Bytes
unfolding lower
lower_query query = map lower (take 65535 query)

unfoldable pub first_keyword : Bytes → List KeywordEntry → Option KeywordEntry
unfolding strstr is_some
first_keyword query [] = none
first_keyword query (k ∷ ks) = if contains query k.keyword then some k else first_keyword query ks

-- `none` where the call returns -1. The target holds 127 bytes of the query.
unfoldable pub router_resolve : List KeywordEntry → Request → Option Intent
unfolding lower_query first_keyword
router_resolve keywords req =
    let query_lower = lower_query req.query in
    elim (first_keyword query_lower keywords) [
      | none ↦ none
      | some k ↦ some (record {
        action = [];
        target = strncpy 127 query_lower;
        required_capability = strncpy 63 k.capability;
      })
    ]
