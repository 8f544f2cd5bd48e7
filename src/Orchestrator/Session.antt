-- ===== src/Orchestrator/Session.antt =====
-- Client sessions: khazar/components/orchestrator/session/session.c and session.h.
-- `sessions[0 .. count)` is a list, a session's history too, and `time(NULL)` an argument. A pointer
-- into the array is the session that it points to when the call returns. The array is taken to have
-- room for `max_sessions`.
pub mod Apart
pub mod Create
use khazar_os.Common.{
  ℕ, zero, suc, ◌+◌, ◌-◌, ◌*◌, ◌/◌, ◌%◌, ◌^◌, ◌≤◌, ◌<◌, ◌≡◌, refl, sym, ap, ◌∙◌, ◌≢◌, ◌↔◌, ◌⊎◌, inl,
  inr, Bool, true, false, not, ◌&&◌, ◌||◌, Option, none, some, List, [], ◌∷◌, ◌++◌, map, arith, leb,
  ltb, ◌==◌, if◌then◌else◌, length, take, drop, get_or, get_elem?, set, ℤ, pos, negsuc, ltb_ℤ,
  pos_part, neg_part, sub_ℕ, ◌+ℤ◌, ◌≤ℤ◌, ◌<ℤ◌, ◌>>=◌, Bool-cases, Option-cases, length-append,
  length-set, replicate, ltb→lt, lt→ltb,
}
use khazar_os.CString.{
  Bytes, lit, str_eq, strncpy, has_prefix, strstr, is_some, contains, strchr, tolower, isspace,
  skip_spaces,
}
use khazar_os.CString.Lines.{decimal}

pub record HistoryEntry : Type 0 where
  pub query : Bytes
  pub response : Bytes
  pub timestamp : ℕ

pub record Session : Type 0 where
  pub session_id : Bytes
  pub client_id : Bytes
  pub history : List HistoryEntry
  pub last_active : ℕ
  pub active : Bool

pub record SessionManager : Type 0 where
  pub sessions : List Session
  pub max_sessions : ℕ
  pub timeout_secs : ℕ

abbrev pub max_sessions_default : ℕ
max_sessions_default = 1024

abbrev pub session_timeout : ℕ
session_timeout = 300

abbrev pub max_history_entries : ℕ
max_history_entries = 50

-- arg > 0 ? arg : otherwise
unfoldable pub positive_or : ℕ → ℤ → ℕ
positive_or otherwise (pos zero) = otherwise
positive_or otherwise (pos (suc n)) = suc n
positive_or otherwise (negsuc n) = otherwise

unfoldable pub session_init : ℤ → ℤ → SessionManager
unfolding positive_or
session_init max_sessions timeout_secs = record {
  sessions = [];
  max_sessions = positive_or max_sessions_default max_sessions;
  timeout_secs = positive_or session_timeout timeout_secs;
}

unfoldable pub generate_session_id : ℕ → Bytes → Bytes
generate_session_id now client_id = strncpy 63 (client_id ++ b'_' ∷ decimal now)

unfoldable pub new_session : ℕ → Bytes → Session
new_session now client_id = record {
  session_id = generate_session_id now client_id;
  client_id = strncpy 63 client_id;
  history = [];
  last_active = now;
  active = true;
}

-- The first loop: it returns at the client's first session that has not timed out, and switches off
-- those that have. `now - last_active < timeout_secs` on signed numbers.
unfoldable pub touch : ℕ → ℕ → Bytes → List Session → List Session × Option Session
touch now timeout client_id [] = ([], none)
touch now timeout client_id (s ∷ ss) =
    let rest = touch now timeout client_id ss in
    if str_eq s.client_id client_id
    then if ltb now (s.last_active + timeout)
      then (record s { last_active = now } ∷ ss, some (record s { last_active = now }))
      else (record s { active = false } ∷ rest.0, rest.1)
    else (s ∷ rest.0, rest.1)

-- The second loop: the first inactive session is overwritten.
unfoldable pub reuse : Session → List Session → Option (List Session)
reuse new [] = none
reuse new (s ∷ ss) =
    let rest = reuse new ss in
    if not s.active then some (new ∷ ss) else elim rest [ none ↦ none | some r ↦ some (s ∷ r) ]

-- What follows the first loop.
unfoldable pub create : Session → SessionManager → SessionManager × Option Session
create new sm = elim (reuse new sm.sessions) [
  | some ss ↦ (record sm { sessions = ss }, some new)
  | none ↦
      if ltb (length sm.sessions) sm.max_sessions
      then (record sm { sessions = sm.sessions ++ new ∷ [] }, some new)
      else (sm, none)
]

unfoldable pub session_get_or_create : ℕ → SessionManager → Bytes → SessionManager × Option Session
session_get_or_create now sm client_id =
    let found = touch now sm.timeout_secs client_id sm.sessions in
    let sm' = record sm { sessions = found.0 } in
    elim found.1 [ some s ↦ (sm', some s) | none ↦ create (new_session now client_id) sm' ]

unfoldable pub add_entry : ℕ → Bytes → Bytes → Session → Session
add_entry now query response s =
    if ltb (length s.history) max_history_entries
    then record s {
      history =
          s.history
          ++ record {
            query = strncpy 65535 query;
            response = strncpy 65535 response;
            timestamp = now;
          }
            ∷ [];
      last_active = now;
    }
    else record s { last_active = now }

unfoldable pub add_history : ℕ → Bytes → Bytes → Bytes → List Session → Option (List Session)
add_history now session_id query response [] = none
add_history now session_id query response (s ∷ ss) =
    let rest = add_history now session_id query response ss in
    if str_eq s.session_id session_id
    then some (add_entry now query response s ∷ ss)
    else elim rest [ none ↦ none | some r ↦ some (s ∷ r) ]

-- The new manager, and whether the call returns 0.
unfoldable pub session_add_history :
    ℕ → SessionManager → Bytes → Bytes → Bytes → SessionManager × Bool
session_add_history now sm session_id query response =
    elim (add_history now session_id query response sm.sessions) [
      | some ss ↦ (record sm { sessions = ss }, true)
      | none ↦ (sm, false)
    ]
