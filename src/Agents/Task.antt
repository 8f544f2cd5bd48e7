-- ===== src/Agents/Task.antt =====
-- What `handle_client` of the agents has in common: khazar/agents/*/main.c hold the same code for the
-- number and the query of a message, the search for words, and the reply. The line numbers are those of
-- the package agent.
pub mod Pieces
pub mod Outcome
use khazar_os.Common.{
  ℕ, zero, suc, ◌+◌, ◌-◌, Bool, true, false, ◌||◌, Option, none, some, List, [], ◌∷◌, ◌++◌, ◌==◌,
  if◌then◌else◌, length, drop, ℤ, pos, ◌>>=◌,
}
use khazar_os.CString.{Bytes, lit, strncpy, strstr, is_some, contains, strchr, skip_spaces}
use khazar_os.CString.Lines.{span_not, strtoull, decimal, all_spaces}

unfoldable pub extract_str : Bytes → Bytes → ℕ → Option Bytes
unfolding strstr span_not
extract_str json key bufsz = do
  p ← strstr json (b'"' ∷ (key ++ lit "\":\""))
  some (span_not b'"' (bufsz - 1) (drop (length key + 4) p)).0

-- strstr(query, ..) || ..
unfoldable pub any_word : List Bytes → Bytes → Bool
any_word [] query = false
any_word (w ∷ ws) query = contains query w || any_word ws query

-- The loop over the keywords, from its first hit: what stands behind the blanks behind the word.
unfoldable pub behind_word : List Bytes → Bytes → Bytes
unfolding skip_spaces
behind_word [] query = []
behind_word (w ∷ ws) query = elim (strstr query w) [
  | none ↦ behind_word ws query
  | some p ↦ strncpy 127 (skip_spaces (drop (length w) p))
]

-- while (t >= pkg && *t == ' ') *t-- = '\0'
unfoldable pub trim_blanks : Bytes → Bytes
unfolding all_spaces
trim_blanks [] = []
trim_blanks (c ∷ s) = let rest = trim_blanks s in if all_spaces (c ∷ s) then [] else c ∷ rest

-- `success`, `message`, and the command that was run.
pub record Done : Type 0 where
  pub success : Bool
  pub message : Bytes
  pub command : Option Bytes

abbrev pub unknown_command : Done
unknown_command = record { success = false; message = lit "unknown command"; command = none }

unfoldable pub is_zero : ℤ → Bool
is_zero (pos zero) = true
is_zero _ = false

-- The end of the branches for installing and removing.
unfoldable pub report : Bytes → Bytes → Option Bytes × ℤ → Done
unfolding is_zero
report done failed (command, status) =
    if is_zero status
    then record { success = true; message = strncpy 511 done; command = command }
    else record { success = false; message = strncpy 511 failed; command = command }

-- while (*idp && *idp != ',' && *idp != '}' && j < 31)
unfoldable pub id_text : ℕ → Bytes → Bytes
id_text zero s = []
id_text (suc n) [] = []
id_text (suc n) (c ∷ s) = let rest = id_text n s in if c == b',' || c == b'}' then [] else c ∷ rest

unfoldable pub parse_id : Bytes → ℕ
unfolding strstr strchr skip_spaces id_text strtoull
parse_id raw = elim (do p ← strstr raw (lit "\"id\""); strchr p b':') [
  | none ↦ 0
  | some q ↦ strtoull (id_text 31 (skip_spaces (drop 1 q)))
]

unfoldable pub query_of : Bytes → Bytes
unfolding extract_str
query_of raw = elim (extract_str raw (lit "query") 2048) [ none ↦ [] | some q ↦ q ]

unfoldable pub reply : ℕ → Done → Bytes
unfolding decimal
reply id d =
    lit "{\"id\":"
    ++ (decimal id
        ++ (lit ",\"status\":\""
            ++ ((if d.success then lit "success" else lit "error")
                ++ (lit "\",\"payload\":{\"message\":\"" ++ (d.message ++ lit "\"}}")))))

-- The bytes sent and the command that was run, around the agent's own choice of what to do.
unfoldable pub answer : (Bytes → Done) → Bytes → Bytes × Option Bytes
unfolding strstr is_some query_of reply parse_id
answer carry_out raw =
    let d = carry_out (query_of raw) in
    if contains raw (lit "\"type\":\"ping\"")
    then (lit "{\"id\":0,\"status\":\"success\",\"payload\":{\"message\":\"agent alive\"}}", none)
    else (reply (parse_id raw) d, d.command)
