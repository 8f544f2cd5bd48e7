-- ===== src/PolicyEngine/Load.antt =====
-- `policy_load_file`, `policy_load_dir` and `policy_reload` of
-- khazar/components/policy-engine/policy/policy.c. A file is its content, `none` where `fopen`
-- fails; a directory is the list of the files that `ls DIR/*.toml` names, `none` where `popen` fails.
pub mod Growth
use khazar_os.Common.{
  ℕ, zero, suc, ◌+◌, ◌-◌, ◌*◌, ◌/◌, ◌%◌, ◌^◌, ◌≤◌, ◌<◌, ◌≡◌, refl, sym, ap, ◌∙◌, ◌≢◌, ◌↔◌, ◌⊎◌, inl,
  inr, Bool, true, false, not, ◌&&◌, ◌||◌, Option, none, some, List, [], ◌∷◌, ◌++◌, map, arith, leb,
  ltb, ◌==◌, if◌then◌else◌, length, take, drop, get_or, get_elem?, set, ℤ, pos, negsuc, ltb_ℤ,
  pos_part, neg_part, sub_ℕ, ◌+ℤ◌, ◌≤ℤ◌, ◌<ℤ◌, Bool-cases, Option-cases, length-append, length-set,
  replicate, ltb→lt, lt→ltb,
}
use khazar_os.CString.{
  Bytes, lit, str_eq, strncpy, has_prefix, strstr, is_some, contains, strchr, tolower, isspace,
  skip_spaces,
}
use khazar_os.CString.Lines.{lines, scan_pair, trim_key, unquote, atoi}
use khazar_os.PolicyEngine.Store.{
  PolicyAction, allow, PolicyMatch, match_exact, match_pattern, match_all, PolicyRule, PolicyStore,
  policy_action_from_str, max_policies, policy_init,
}

abbrev pub File : Type 0
File = Option Bytes

-- The variables of the loop.
pub record Loader : Type 0 where
  pub store : PolicyStore
  pub rule : PolicyRule
  pub in_rule : Bool
  pub loaded : ℕ

-- memset and the three defaults
abbrev pub fresh_rule : PolicyRule
fresh_rule = record {
  capability = [];
  agent_name = [];
  action = allow;
  require_root = false;
  match_type = match_exact;
  message = [];
  priority = pos 10;
}

-- The rule read so far goes into the store, if there is room.
unfoldable pub flush : Loader → Loader
flush l =
    if l.in_rule && ltb (length l.store) max_policies
    then record l { store = l.store ++ l.rule ∷ []; loaded = l.loaded + 1 }
    else l

unfoldable pub match_type_from_str : Bytes → PolicyMatch
match_type_from_str v =
    if str_eq v (lit "pattern")
    then match_pattern
    else if str_eq v (lit "all")
    then match_all
    else match_exact

-- `strncpy` over a rule that may hold an older value: a shorter value ends at its own NUL.
unfoldable pub set_field : PolicyRule → Bytes → Bytes → PolicyRule
unfolding match_type_from_str
set_field rule k v =
    if str_eq k (lit "capability")
    then record rule { capability = strncpy 63 v }
    else if str_eq k (lit "agent")
    then record rule { agent_name = strncpy 63 v }
    else if str_eq k (lit "action")
    then record rule { action = policy_action_from_str v }
    else if str_eq k (lit "require_root")
    then record rule { require_root = str_eq v (lit "true") }
    else if str_eq k (lit "match_type")
    then record rule { match_type = match_type_from_str v }
    else if str_eq k (lit "message")
    then record rule { message = strncpy 255 v }
    else if str_eq k (lit "priority")
    then record rule { priority = atoi v }
    else rule

unfoldable pub load_pair : Loader → Option (Bytes × Bytes) → Loader
load_pair l none = l
load_pair l (some (key, value)) = record l {
  rule = set_field l.rule (trim_key key) (unquote value);
}

-- One round of the loop.
unfoldable pub load_line : Loader → Bytes → Loader
load_line l line =
    if get_or line 0 0 == b'#' || leb (length line) 0
    then l
    else if contains line (lit "[rule.")
    then record (flush l) { rule = fresh_rule; in_rule = true }
    else if not l.in_rule
    then l
    else load_pair l (scan_pair line)

unfoldable pub load_lines : Loader → List Bytes → Loader
load_lines l [] = l
load_lines l (line ∷ rest) = load_lines (load_line l line) rest

abbrev pub loader_init : PolicyStore → Loader
loader_init ps = record { store = ps; rule = fresh_rule; in_rule = false; loaded = 0 }

-- The new store and the result of the call.
unfoldable pub policy_load_file : PolicyStore → File → PolicyStore × ℤ
policy_load_file ps none = (ps, negsuc 0)
policy_load_file ps (some text) =
    let l = flush (load_lines (loader_init ps) (lines 511 text)) in (l.store, pos l.loaded)

-- if (n > 0) total += n
unfoldable pub add_loaded : ℕ → ℤ → ℕ
add_loaded total (pos n) = total + n
add_loaded total (negsuc n) = total

unfoldable pub load_files : PolicyStore → ℕ → List File → PolicyStore × ℕ
load_files ps total [] = (ps, total)
load_files ps total (f ∷ fs) =
    let (ps', n) = policy_load_file ps f in load_files ps' (add_loaded total n) fs

unfoldable pub policy_load_dir : PolicyStore → Option (List File) → PolicyStore × ℤ
policy_load_dir ps none = (ps, negsuc 0)
policy_load_dir ps (some files) = let (ps', total) = load_files ps 0 files in (ps', pos total)

-- `count = 0`, then the directory.
unfoldable pub policy_reload : PolicyStore → Option (List File) → PolicyStore × ℤ
policy_reload ps dir = policy_load_dir policy_init dir
