-- ===== src/Agents/Tests/Loop.antt =====
-- The agents' registration, heartbeat and main loop at concrete inputs.
use khazar_os.Common.{
  ℕ, ◌+◌, ◌<◌, ◌≡◌, refl, Bool, true, false, not, ◌&&◌, none, List, [], ◌∷◌, arith, leb, length,
}
use khazar_os.CString.{Bytes, lit, str_eq}
use khazar_os.CString.Quoted.{is_quote_free, NoQuote-is_quote_free}
use khazar_os.Orchestrator.Registry.{registry_register}
use khazar_os.Orchestrator.Handler.{World, on_request_handler}
use khazar_os.Agents.Daemon.{
  Attempt, Link, Turn, quoted, register_text, register_message, heartbeat_message, main_round,
}
use khazar_os.Agents.Daemon.Pace.{Steady, Spaced, final, latest, messages, messages_bound}
use khazar_os.Agents.Daemon.Registered.{IsText, IsIdentity, agent_of, on_request_handler-register}
use khazar_os.Agents.Daemon.Heartbeat.{on_request_handler-heartbeat}
use khazar_os.Agents.Power
use khazar_os.Agents.Desktop

abbrev is_text : ℕ → Bytes → Bool
is_text n v =
    is_quote_free v
    && (leb (length v) n
        && (not (str_eq v (lit "query"))
            && (not (str_eq v (lit "version"))
                && (not (str_eq v (lit "socket")) && not (str_eq v (lit "capabilities"))))))

split : (a b : Bool) → (a && b) ≡ true → (a ≡ true) × (b ≡ true)
split true b h = (refl, h)
split false b h = absurd (cc)

not-true : (b : Bool) → not b ≡ true → b ≡ false
not-true true h = absurd (cc)
not-true false h = refl

IsText-is_text : (n : ℕ) (v : Bytes) → is_text n v ≡ true → IsText n v
IsText-is_text n v h =
    let (a, h1) = split (is_quote_free v) _ h in
    let (b, h2) = split (leb (length v) n) _ h1 in
    let (c, h3) = split (not (str_eq v (lit "query"))) _ h2 in
    let (d, h4) = split (not (str_eq v (lit "version"))) _ h3 in
    let (e, f) = split (not (str_eq v (lit "socket"))) _ h4 in
    record {
      free = NoQuote-is_quote_free v a;
      short = ground arith;
      not_query = not-true _ c;
      not_version = not-true _ d;
      not_socket = not-true _ e;
      not_capabilities = not-true _ f;
    }

abbrev world : World
world = record {
  rule_client = none;
  router = none;
  intent_client = none;
  policy_client = none;
  agent_client = none;
}

desktop-IsIdentity : IsIdentity Desktop.identity
unfolding str_eq quoted register_text
desktop-IsIdentity = record {
  name_text = IsText-is_text 63 Desktop.identity.name refl;
  name_ne_nil = omega arith;
  version_text = IsText-is_text 15 Desktop.identity.version refl;
  socket_text = IsText-is_text 255 Desktop.identity.socket refl;
  capability_texts = (
    IsText-is_text 63 (lit "open_application") refl,
    (IsText-is_text 63 (lit "close_application") refl, tt),
  );
  capability_count = omega arith;
  fits = omega arith;
}

on_request_handler-register_example :
    (on_request_handler world 100 [] (register_message Desktop.identity)).registry
    ≡ (registry_register 100 [] (agent_of 100 Desktop.identity)).0
on_request_handler-register_example =
    on_request_handler-register Desktop.identity desktop-IsIdentity world 100 []

on_request_handler-heartbeat_example :
    (on_request_handler world 120
      (agent_of 100 Power.identity ∷ [])
      (heartbeat_message Power.identity 119)).registry
    ≡ agent_of 100 Power.identity ∷ []
unfolding str_eq
on_request_handler-heartbeat_example =
    on_request_handler-heartbeat world 120 119 (agent_of 100 Power.identity ∷ []) Power.identity
      (NoQuote-is_quote_free Power.identity.name refl) (omega arith) refl

abbrev well : Attempt
well = record { connects = true; writes = true; answered = true }

abbrev turn : ℕ → Turn
turn now = record { message = none; now = now; writes = true; attempt = well }

abbrev turns : List Turn
turns = turn 101 ∷ turn 103 ∷ turn 106 ∷ turn 108 ∷ turn 111 ∷ []

abbrev registered : Link
registered = record { open_fd = true; last_heartbeat = 100 }

turns-Steady : Steady 3 101 turns
turns-Steady = (
  omega arith,
  omega arith,
  refl,
  refl,
  (
    omega arith,
    omega arith,
    refl,
    refl,
    (
      omega arith,
      omega arith,
      refl,
      refl,
      (omega arith, omega arith, refl, refl, (omega arith, omega arith, refl, refl, tt)),
    ),
  ),
)

messages_bound_example :
    Spaced Power.identity 5 (5 + 3) 100 (messages (λ m. m) Power.identity registered turns)
    × (final 101 turns < latest 100 (messages (λ m. m) Power.identity registered turns) + 5)
messages_bound_example =
    messages_bound (λ m. m) Power.identity 3 101 registered turns (omega arith) (omega arith)
      turns-Steady

messages_test :
    messages (λ m. m) Power.identity registered turns
    ≡ (106, heartbeat_message Power.identity 106) ∷ (111, heartbeat_message Power.identity 111) ∷ []
unfolding messages
messages_test = refl

-- A write that fails is followed by a registration.
again_test :
    (main_round (λ m. m) Power.identity registered (record (turn 106) { writes = false })).2
    ≡ register_message Power.identity ∷ []
unfolding main_round
again_test = refl
