-- ===== src/Agents/Daemon/Pace.antt =====
-- How often an agent writes to the orchestrator (the main loop of khazar/agents/*/main.c).
use khazar_os.Common.{
  ℕ, ◌+◌, ◌≤◌, ◌<◌, ◌≡◌, refl, ◌⊎◌, inl, inr, Bool, true, false, ◌&&◌, List, [], ◌∷◌, ◌++◌, map,
  arith, leb, if◌then◌else◌, Bool-cases,
}
use khazar_os.CString.{Bytes}
use khazar_os.Agents.Daemon.{
  Identity, Attempt, Link, heartbeat_interval_sec, register_message, register_with_orchestrator,
  heartbeat_message, contact, beat, Turn, main_round,
}

-- The times of the rounds, the first from `before`, each at most `d` after the one before; and in each
-- round the orchestrator can be reached again if that is tried.
abbrev pub Steady : ℕ → ℕ → List Turn → Type 0
Steady d before [] = Unit
Steady d before (t ∷ ts) =
    (before ≤ t.now)
    × (t.now ≤ before + d)
    × (t.attempt.connects ≡ true)
    × (t.attempt.writes ≡ true)
    × Steady d t.now ts

-- The messages lie `lo` to `hi` seconds apart, the first from `before`, and each is a heartbeat that
-- tells its time or a registration.
abbrev pub Spaced : Identity → ℕ → ℕ → ℕ → List (ℕ × Bytes) → Type 0
Spaced id lo hi before [] = Unit
Spaced id lo hi before ((t, m) ∷ ms) =
    (before + lo ≤ t)
    × (t ≤ before + hi)
    × ((m ≡ heartbeat_message id t) ⊎ (m ≡ register_message id))
    × Spaced id lo hi t ms

-- The time of the last round.
abbrev pub final : ℕ → List Turn → ℕ
final before [] = before
final before (t ∷ ts) = final t.now ts

-- The time of the last message.
abbrev pub latest : ℕ → List (ℕ × Bytes) → ℕ
latest before [] = before
latest before ((t, m) ∷ ms) = latest t ms

-- The message of a contact that is not cut off.
abbrev message_of : Identity → Link → Turn → Bytes
message_of id link t =
    if link.open_fd && t.writes then heartbeat_message id t.now else register_message id

message_of-known :
    (id : Identity) (link : Link) (t : Turn)
    → (message_of id link t ≡ heartbeat_message id t.now)
      ⊎ (message_of id link t ≡ register_message id)
message_of-known id link t = elim (Bool-cases (link.open_fd && t.writes)) [
  | inl y ↦ rw y (inl refl)
  | inr n ↦ rw n (inr refl)
]

contact-sends :
    (id : Identity) (now : ℕ) (writes : Bool) (a : Attempt) (fd : Bool)
    → a.connects ≡ true
    → a.writes ≡ true
    → (contact id now writes a fd).1
      ≡ (if fd && writes then heartbeat_message id now else register_message id) ∷ []
unfolding contact register_with_orchestrator
contact-sends id now true a true c w = refl
contact-sends id now false a true c w = rw (c, w) refl
contact-sends id now writes a false c w = rw (c, w) refl

module _ {A : Type 0} (handle_client : Bytes → A) (id : Identity) where
  -- What rounds one after the other write to the orchestrator, with the times.
  unfoldable pub messages : Link → List Turn → List (ℕ × Bytes)
  unfolding main_round
  messages link [] = []
  messages link (t ∷ ts) =
      let r = main_round handle_client id link t in
      let rest = messages r.0 ts in map (λ m. (t.now, m)) r.2 ++ rest

  round-due :
      (link : Link) (t : Turn)
      → leb (link.last_heartbeat + heartbeat_interval_sec) t.now ≡ true
      → t.attempt.connects ≡ true
      → t.attempt.writes ≡ true
      → ((main_round handle_client id link t).0.last_heartbeat ≡ t.now)
        × ((main_round handle_client id link t).2 ≡ message_of id link t ∷ [])
  unfolding main_round beat
  round-due link t y c w = rw y (refl, contact-sends id t.now t.writes t.attempt link.open_fd c w)

  round-quiet :
      (link : Link) (t : Turn)
      → leb (link.last_heartbeat + heartbeat_interval_sec) t.now ≡ false
      → ((main_round handle_client id link t).0 ≡ link)
        × ((main_round handle_client id link t).2 ≡ [])
  unfolding main_round beat
  round-quiet link t n = rw n (refl, refl)

  -- Where the rounds follow one another within `d` seconds and the orchestrator can be reached, what the agent
  -- writes to it are heartbeats and registrations, at least 5 and at most 5 + d seconds apart, whether the
  -- writes of the heartbeats fail or not; and the last of them is less than 5 seconds old after the last
  -- round. At the start the last contact is less than 5 seconds old.
  pub messages_bound :
      (d before : ℕ) (link : Link) (ts : List Turn)
      → link.last_heartbeat ≤ before
      → before < link.last_heartbeat + 5
      → Steady d before ts
      → Spaced id 5 (5 + d) link.last_heartbeat (messages link ts)
        × (final before ts < latest link.last_heartbeat (messages link ts) + 5)
  unfolding messages
  messages_bound d before link [] h k s = (tt, k)
  messages_bound d before link (t ∷ ts) h k (a, b, c, w, s) =
      let link' = (main_round handle_client id link t).0 in
      elim (Bool-cases (leb (link.last_heartbeat + heartbeat_interval_sec) t.now)) [
        | inl y ↦
            let (now, sent) = round-due link t y c w in
            let (spaced, recent) =
              messages_bound d t.now link' ts (omega (arith, now)) (omega (arith, now)) s in
            rw sent (
              (
                ground (arith, y),
                ground (arith, h, k, a, b),
                message_of-known id link t,
                rw now at spaced,
              ),
              rw now at recent,
            )
        | inr n ↦
            let (same, quiet) = round-quiet link t n in
            let (spaced, recent) =
              messages_bound d t.now link ts (ground (arith, h, a)) (ground (arith, n)) s in
            rw (quiet, same) (spaced, recent)
      ]
