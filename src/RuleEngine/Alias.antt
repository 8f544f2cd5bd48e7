-- ===== src/RuleEngine/Alias.antt =====
-- The aliases: khazar/components/rule-engine/alias/alias.c. `g_aliases[0 .. g_alias_count)` is a list. The
-- text that `alias_resolve` builds in `resolved` is never read, and left out.
pub mod Word
use khazar_os.Common.{
  ℕ, zero, suc, ◌+◌, ◌-◌, ◌*◌, ◌/◌, ◌%◌, ◌^◌, ◌≤◌, ◌<◌, ◌≡◌, refl, sym, ap, ◌∙◌, ◌≢◌, ◌↔◌, ◌⊎◌, inl,
  inr, Bool, true, false, not, ◌&&◌, ◌||◌, Option, none, some, List, [], ◌∷◌, ◌++◌, map, arith, leb,
  ltb, ◌==◌, if◌then◌else◌, length, take, drop, get_or, get_elem?, set, ℤ, pos, negsuc, ltb_ℤ,
  pos_part, neg_part, sub_ℕ, ◌+ℤ◌, ◌≤ℤ◌, ◌<ℤ◌, ◌>>=◌, Bool-cases, Option-cases, length-append,
  length-set, replicate, ltb→lt, lt→ltb,
}
use khazar_os.CString.{
  Bytes, lit, str_eq, strncpy, has_prefix, strstr, is_some, contains, strchr, tolower, isspace,
  skip_spaces,
}
use khazar_os.RuleEngine.Intent.{RuleSource, by_alias}
use khazar_os.RuleEngine.Result.{MatchResult, no_match, same_source, keep}

pub record AliasEntry : Type 0 where
  pub alias : Bytes
  pub canonical : Bytes
  pub source : RuleSource

abbrev pub max_aliases : ℕ
max_aliases = 1024

abbrev pub alias_init : List AliasEntry
alias_init = []

-- The new table, and whether the call returns 0.
unfoldable pub alias_add : List AliasEntry → Bytes → Bytes → RuleSource → List AliasEntry × Bool
alias_add table keyword canonical source =
    if leb max_aliases (length table) then (table, false) else (
      table
          ++ record {
            alias = strncpy 127 keyword;
            canonical = strncpy 127 canonical;
            source = source;
          }
            ∷ [],
      true,
    )

unfoldable pub strtolower : Bytes → Bytes
strtolower s = map tolower s

abbrev pub alias_lower : AliasEntry → Bytes
alias_lower e = strtolower (strncpy 127 e.alias)

-- s[0] is NUL or a blank
unfoldable pub ends_word : Bytes → Bool
ends_word [] = true
ends_word (c ∷ s) = c == b' '

-- `prefix_len == 0 || query_lower[prefix_len - 1] == ' '`
unfoldable pub begins_word : Bytes → ℕ → Bool
begins_word query_lower prefix_len =
    leb prefix_len 0 || get_or query_lower (prefix_len - 1) 0 == b' '

-- The tests on an occurrence of the alias.
unfoldable pub is_word : Bytes → Bytes → Option Bytes → Bool
is_word query_lower alias none = false
is_word query_lower alias (some found) =
    begins_word query_lower (length query_lower - length found)
    && ends_word (drop (length alias) found)

unfoldable pub answer : AliasEntry → MatchResult
answer e = record no_match {
  target = strncpy 255 e.canonical;
  matched_pattern = strncpy 127 e.alias;
  source = by_alias;
  confidence = record { num = 85; den = 100 };
}

-- The loop; only the first occurrence of each alias is looked at.
unfoldable pub find_alias : Bytes → List AliasEntry → MatchResult × Bool
unfolding is_word strstr answer
find_alias query_lower [] = (no_match, false)
find_alias query_lower (e ∷ table) =
    let rest = find_alias query_lower table in
    if is_word query_lower (alias_lower e) (strstr query_lower (alias_lower e))
    then (answer e, true)
    else rest

-- The result, and whether the call returns 0.
unfoldable pub alias_resolve : List AliasEntry → Bytes → MatchResult × Bool
unfolding find_alias
alias_resolve table query = find_alias (strtolower (strncpy 2047 query)) table

unfoldable pub alias_clear_rules : List AliasEntry → RuleSource → List AliasEntry
alias_clear_rules table source = keep (λ e. not (same_source e.source source)) table
