-- ===== src/Agents/Desktop.antt =====
-- The desktop agent: khazar/agents/desktop-agent/main.c, what it does with one message. Parameters are
-- whether `access` allows a path to be executed, what a shell command prints first, whether `fork` succeeds,
-- and whether `execl` runs a path in the new process.
pub mod Launch
use khazar_os.Common.{
  ℕ, zero, suc, ◌+◌, ◌-◌, ◌*◌, ◌/◌, ◌%◌, ◌^◌, ◌≤◌, ◌<◌, ◌≡◌, refl, sym, ap, ◌∙◌, ◌≢◌, ◌↔◌, ◌⊎◌, inl,
  inr, Bool, true, false, not, ◌&&◌, ◌||◌, Option, none, some, List, [], ◌∷◌, ◌++◌, map, arith, leb,
  ltb, ◌==◌, if◌then◌else◌, length, take, drop, get_or, get_elem?, set, ℤ, negsuc, ltb_ℤ, pos_part,
  neg_part, sub_ℕ, ◌+ℤ◌, ◌≤ℤ◌, ◌<ℤ◌, ◌>>=◌, Bool-cases, Option-cases, length-append, length-set,
  replicate, ltb→lt, lt→ltb,
}
use khazar_os.CString.{
  Bytes, lit, str_eq, strncpy, has_prefix, strstr, is_some, contains, strchr, tolower, isspace,
  skip_spaces,
}
use khazar_os.CString.Lines.{fgets}
use khazar_os.Agents.Daemon
use khazar_os.Agents.Daemon.{Identity, Link, Turn}
use khazar_os.Agents.Task.{Done, any_word, trim_blanks, query_of, answer}

-- `printed` is the first line that `fgets` reads from the command, `none` where there is none.
pub record Host : Type 0 where
  pub access : Bytes → Bool
  pub printed : Bytes → Option Bytes
  pub forks : Bool
  pub executes : Bytes → Bool

abbrev pub dirs : List Bytes
dirs = lit "/usr/bin" ∷ lit "/usr/local/bin" ∷ lit "/bin" ∷ lit "/snap/bin" ∷ []

-- The loop over the directories, from its first hit.
unfoldable pub find_in : Host → Bytes → List Bytes → Option Bytes
find_in host name [] = none
find_in host name (d ∷ ds) =
    let path = strncpy 511 (d ++ (lit "/" ++ name)) in
    if host.access path then some path else find_in host name ds

unfoldable pub which_cmd : Bytes → Bytes
which_cmd name = strncpy 511 (lit "which " ++ (name ++ lit " 2>/dev/null"))

-- What the command printed, if it can be executed.
unfoldable pub try_which : Host → Option Bytes → Option Bytes
unfolding fgets
try_which host none = none
try_which host (some line) =
    let path = (fgets 511 line).0 in
    if ltb 0 (length path) && host.access path then some path else none

-- The path found, and the command that the shell got.
unfoldable pub find_executable : Host → Bytes → Option Bytes × Option Bytes
unfolding find_in which_cmd try_which
find_executable host name = elim (find_in host name dirs) [
  | some path ↦ (some path, none)
  | none ↦ (try_which host (host.printed (which_cmd name)), some (which_cmd name))
]

-- Whether an application was opened, what was executed, and the command that the shell got.
pub record Opened : Type 0 where
  pub done : Bool
  pub launched : Option Bytes
  pub shell : Option Bytes

abbrev pub not_opened : Opened
not_opened = record { done = false; launched = none; shell = none }

-- The call returns once there is a new process, which ends by itself where `execl` fails.
unfoldable pub launch : Host → Option Bytes × Option Bytes → Opened
launch host (none, shell) = record { done = false; launched = none; shell = shell }
launch host (some exe, shell) =
    if host.forks
    then record {
      done = true;
      launched = if host.executes exe then some exe else none;
      shell = shell;
    }
    else record { done = false; launched = none; shell = shell }

unfoldable pub open_application : Host → Bytes → Opened
unfolding tolower launch find_executable
open_application host [] = not_opened
open_application host (c ∷ name) =
    launch host (find_executable host (map tolower (strncpy 255 (c ∷ name))))

-- The four searches for the word of opening, one after the other.
unfoldable pub ac_pos : Bytes → Option Bytes
unfolding strstr
ac_pos query = elim (strstr query (lit "aç")) [
  | some p ↦ some p
  | none ↦ elim (strstr query (lit "ac")) [
    | some p ↦ some p
    | none ↦ elim (strstr query (lit "aç")) [ some p ↦ some p | none ↦ strstr query (lit "open") ]
  ]
]

unfoldable pub has_blank : Bytes → Bool
has_blank [] = false
has_blank (c ∷ s) = c == b' ' || has_blank s

-- while (space > query && *space != ' ') space--: what stands in front of the last blank, nothing where
-- there is none.
unfoldable pub before_blank : Bytes → Bytes
unfolding has_blank
before_blank [] = []
before_blank (c ∷ s) = let rest = before_blank s in if has_blank s then c ∷ rest else []

-- for (p = after; *p && *p != ' '; p++)
unfoldable pub until_blank : Bytes → Bytes
until_blank [] = []
until_blank (c ∷ s) = let rest = until_blank s in if c == b' ' then [] else c ∷ rest

-- The search behind the word, which starts at the end of the text.
unfoldable pub app_behind : Bytes → Bytes
unfolding skip_spaces until_blank
app_behind pos = strncpy 127 (until_blank (skip_spaces (drop (length pos) pos)))

or_else : Bytes → Bytes → Bytes
or_else [] other = other
or_else (c ∷ s) other = c ∷ s

-- The name of the application, from the query and the place of the word in it.
unfoldable pub app_of : Bytes → Bytes → Bytes
unfolding strstr is_some skip_spaces before_blank app_behind or_else trim_blanks
app_of query pos =
    let front = take (length query - length pos) query in
    trim_blanks (
      if contains pos (lit "open")
      then strncpy 127 (skip_spaces (drop 4 pos))
      else or_else (strncpy 127 (before_blank front)) (app_behind pos))

abbrev pub close_words : List Bytes
close_words =
    lit "bagla" ∷ lit "bağla" ∷ lit "sondur" ∷ lit "söndür" ∷ lit "close" ∷ lit "kill" ∷ []

-- The reply's parts with the command that the shell got, and what was executed.
unfoldable pub tell : Bytes → Opened → Done × Option Bytes
tell app o = (
  record {
    success = o.done;
    message = strncpy 511 ((if o.done then lit "opened " else lit "failed to open ") ++ app);
    command = o.shell;
  },
  o.launched,
)

abbrev pub nothing_done : Done × Option Bytes
nothing_done = (record { success = false; message = lit "unknown command"; command = none }, none)

unfoldable pub on_app : Host → Bytes → Done × Option Bytes
unfolding tell open_application
on_app host [] = nothing_done
on_app host (c ∷ app) = tell (c ∷ app) (open_application host (c ∷ app))

unfoldable pub on_open : Host → Bytes → Done × Option Bytes
unfolding ac_pos app_of on_app
on_open host query = elim (ac_pos query) [
  | none ↦ nothing_done
  | some pos ↦ on_app host (app_of query pos)
]

-- The words for closing take over the answer.
unfoldable pub acknowledge : Done × Option Bytes → Done × Option Bytes
acknowledge (d, launched) =
    (record d { success = true; message = lit "close action acknowledged" }, launched)

-- From the query to the reply's parts, and what was executed.
unfoldable pub carry_out : Host → Bytes → Done × Option Bytes
unfolding on_open any_word
carry_out host query =
    if any_word close_words query then acknowledge (on_open host query) else on_open host query

-- The bytes sent, with the command that the shell got, and what was executed.
unfoldable pub handle_client : Host → Bytes → (Bytes × Option Bytes) × Option Bytes
unfolding carry_out answer
handle_client host raw = (
  answer (λ query. (carry_out host query).0) raw,
  if contains raw (lit "\"type\":\"ping\"") then none else (carry_out host (query_of raw)).1,
)

abbrev pub identity : Identity
identity = record {
  name = lit "desktop-agent";
  version = lit "0.1.0";
  socket = lit "/tmp/ai-desktop-agent.sock";
  capabilities = lit "open_application" ∷ lit "close_application" ∷ [];
}

-- A round of the main loop.
unfoldable pub main_round :
    Host → Link → Turn → Link × Option ((Bytes × Option Bytes) × Option Bytes) × List Bytes
unfolding handle_client
main_round host = Daemon.main_round (handle_client host) identity
