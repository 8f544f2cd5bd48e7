-- ===== src/Agents/Daemon.antt =====
-- What the agents share around their tasks: the registration with the orchestrator, and the main loop with
-- its heartbeat (khazar/agents/*/main.c hold the same code). Parameters are how the calls for the socket
-- end, the time, and the messages of the clients.
pub mod Pace
pub mod Registered
pub mod Heartbeat
use khazar_os.Common.{
  ℕ, zero, suc, ◌+◌, ◌-◌, ◌*◌, ◌/◌, ◌%◌, ◌^◌, ◌≤◌, ◌<◌, ◌≡◌, refl, sym, ap, ◌∙◌, ◌≢◌, ◌↔◌, ◌⊎◌, inl,
  inr, Bool, true, false, not, ◌&&◌, ◌||◌, Option, none, some, List, [], ◌∷◌, ◌++◌, map, arith, leb,
  ltb, ◌==◌, if◌then◌else◌, length, take, drop, get_or, get_elem?, set, ℤ, pos, negsuc, ltb_ℤ,
  pos_part, neg_part, sub_ℕ, ◌+ℤ◌, ◌≤ℤ◌, ◌<ℤ◌, ◌>>=◌, Bool-cases, Option-cases, length-append,
  length-set, replicate, ltb→lt, lt→ltb,
}
use khazar_os.CString.{
  Bytes, lit, str_eq, strncpy, has_prefix, strstr, is_some, contains, strchr, tolower, isspace,
  skip_spaces,
}
use khazar_os.CString.Lines.{decimal}

-- AGENT_NAME, AGENT_VERSION, AGENT_SOCKET, and the capabilities in the text of the registration.
pub record Identity : Type 0 where
  pub name : Bytes
  pub version : Bytes
  pub socket : Bytes
  pub capabilities : List Bytes

-- The texts in quotes, with commas between them.
unfoldable pub quoted : List Bytes → Bytes
quoted [] = []
quoted (c ∷ []) = b'"' ∷ (c ++ b'"' ∷ [])
quoted (c ∷ d ∷ cs) = b'"' ∷ (c ++ (b'"' ∷ b',' ∷ quoted (d ∷ cs)))

unfoldable pub register_text : Identity → Bytes
unfolding quoted
register_text id =
    lit "{\"type\":\"register\",\"name\":\""
    ++ (id.name
        ++ (lit "\",\"version\":\""
            ++ (id.version
                ++ (lit "\",\"socket\":\""
                    ++ (id.socket
                        ++ (lit "\",\"capabilities\":["
                            ++ (quoted id.capabilities ++ lit "]}")))))))

-- snprintf(msg, sizeof(msg), ..)
unfoldable pub register_message : Identity → Bytes
unfolding register_text
register_message id = strncpy 4095 (register_text id)

-- How `connect`, `write` and `read` end.
pub record Attempt : Type 0 where
  pub connects : Bool
  pub writes : Bool
  pub answered : Bool

-- Whether `orch_fd` is open afterwards, and what was written.
unfoldable pub register_with_orchestrator : Identity → Attempt → Bool × List Bytes
unfolding register_message
register_with_orchestrator id a =
    if a.connects
    then (if a.writes then (a.answered, register_message id ∷ []) else (false, []))
    else (false, [])

unfoldable pub heartbeat_message : Identity → ℕ → Bytes
unfolding decimal
heartbeat_message id now = strncpy 255 (
    lit "{\"type\":\"heartbeat\",\"name\":\""
    ++ (id.name ++ (lit "\",\"timestamp\":" ++ (decimal now ++ lit "}"))))

-- Whether `orch_fd` is open, and the time of the last contact.
pub record Link : Type 0 where
  pub open_fd : Bool
  pub last_heartbeat : ℕ

abbrev pub heartbeat_interval_sec : ℕ
heartbeat_interval_sec = 5

-- Whether `orch_fd` is open afterwards, and what was written: `writes` is how the write of the
-- heartbeat ends.
unfoldable pub contact : Identity → ℕ → Bool → Attempt → Bool → Bool × List Bytes
unfolding heartbeat_message register_with_orchestrator
contact id now writes a true =
    if writes then (true, heartbeat_message id now ∷ []) else register_with_orchestrator id a
contact id now writes a false = register_with_orchestrator id a

-- The end of a round of the main loop.
unfoldable pub beat : Identity → ℕ → Bool → Attempt → Link → Link × List Bytes
unfolding contact
beat id now writes a link =
    let (fd, sent) = contact id now writes a link.open_fd in
    if leb (link.last_heartbeat + heartbeat_interval_sec) now
    then (record { open_fd = fd; last_heartbeat = now }, sent)
    else (link, [])

-- What happens in a round: the message that a client sends, if one comes in time, the time after that, and
-- how the calls for the heartbeat end.
pub record Turn : Type 0 where
  pub message : Option Bytes
  pub now : ℕ
  pub writes : Bool
  pub attempt : Attempt

-- A round of the main loop: the client's message is handled, then the heartbeat is looked after. The new
-- link, what the handler gave, and what was written to the orchestrator.
unfoldable pub main_round {ℓ} :
    {A : Type ℓ} → (Bytes → A) → Identity → Link → Turn → Link × Option A × List Bytes
unfolding beat
main_round handle_client id link t =
    let (link', sent) = beat id t.now t.writes t.attempt link in
    (link', elim t.message [ none ↦ none | some raw ↦ some (handle_client raw) ], sent)

-- The start of `main`, at the time `now`.
unfoldable pub main_start : Identity → ℕ → Attempt → Link × List Bytes
unfolding register_with_orchestrator
main_start id now a =
    let (fd, sent) = register_with_orchestrator id a in
    (record { open_fd = fd; last_heartbeat = now }, sent)
