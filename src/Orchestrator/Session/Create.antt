-- ===== src/Orchestrator/Session/Create.antt =====
-- The sessions after `session_get_or_create` (khazar/components/orchestrator/session/session.c).
use khazar_os.Common.{
  ℕ, suc, ◌≤◌, ◌≡◌, refl, ap, inl, inr, true, Option, none, some, List, [], ◌∷◌, arith, ltb, length,
  Bool-cases, Option-cases, length-append,
}
use khazar_os.CString.{Bytes}
use khazar_os.CString.Laws.{take-all}
use khazar_os.Common.{All, AllPairs}
use khazar_os.Orchestrator.Session.{
  Session, SessionManager, new_session, touch, reuse, create, session_get_or_create,
}
use khazar_os.Orchestrator.Session.Apart.{
  Apart, NotServing, AllWithin, AllPairs-Within, touch-AllWithin, touch-NotServing, touch-found,
  length-reuse, reuse-none, reuse-Apart, append-Apart,
}

-- At most one active session for a client, and no more sessions than there is room for.
pub record IsValid (sm : SessionManager) : Type 0 where
  pub apart : AllPairs Apart sm.sessions
  pub fits : length sm.sessions ≤ sm.max_sessions

create-IsValid :
    (new : Session) (sm : SessionManager)
    → All (NotServing new.client_id) sm.sessions
    → IsValid sm
    → IsValid (create new sm).0
unfolding create
create-IsValid new sm n v = elim (Option-cases (reuse new sm.sessions)) [
  | inr (r, e) ↦
      let same = length-reuse new sm.sessions e in
      rw (e, create)
        (record {
          apart = reuse-Apart new sm.sessions e n v.apart;
          fits = omega (arith, same, v.fits);
        })
  | inl e ↦ elim (Bool-cases (ltb (length sm.sessions) sm.max_sessions)) [
    | inl room ↦
        rw (e, create)
          (rw room (record {
            apart = append-Apart new sm.sessions n v.apart;
            fits = ground (arith, length-append sm.sessions (new ∷ []));
          }))
    | inr full ↦ rw (e, create) (rw full v)
  ]
]

length-AllWithin : (ss ts : List Session) → AllWithin ss ts → length ss ≡ length ts
length-AllWithin [] [] v = refl
length-AllWithin [] (t ∷ ts) v = absurd v
length-AllWithin (s ∷ ss) [] v = absurd v
length-AllWithin (s ∷ ss) (t ∷ ts) v = ap suc (length-AllWithin ss ts v.1)

touched-IsValid :
    (now : ℕ) (sm : SessionManager) (c : Bytes)
    → IsValid sm
    → IsValid (record sm { sessions = (touch now sm.timeout_secs c sm.sessions).0 })
touched-IsValid now sm c v =
    let w = touch-AllWithin now sm.timeout_secs c sm.sessions in
    record {
      apart = AllPairs-Within sm.sessions _ w v.apart;
      fits = omega (arith, length-AllWithin _ _ w, v.fits);
    }

-- For a client whose name fits its buffer, `session_get_or_create` keeps the manager valid, on each
-- of its four ways out.
pub session_get_or_create-IsValid :
    (now : ℕ) (sm : SessionManager) (c : Bytes)
    → length c ≤ 63
    → IsValid sm
    → IsValid (session_get_or_create now sm c).0
unfolding session_get_or_create new_session
session_get_or_create-IsValid now sm c l v =
    elim (Option-cases (touch now sm.timeout_secs c sm.sessions).1) [
      | inr (s, e) ↦ rw (e, session_get_or_create) (touched-IsValid now sm c v)
      | inl e ↦
          rw (e, session_get_or_create)
            (create-IsValid (new_session now c) _
              (rw (take-all 63 c l) (touch-NotServing now sm.timeout_secs c sm.sessions e))
              (touched-IsValid now sm c v))
    ]

-- A session belongs to the client and is active as of now; where there is none, each place is taken
-- by an active session.
abbrev pub Answers : ℕ → Bytes → SessionManager → Option Session → Type 0
Answers now c sm (some s) = (s.client_id ≡ c) × (s.last_active ≡ now)
Answers now c sm none =
    All (λ s. s.active ≡ true) sm.sessions × (sm.max_sessions ≤ length sm.sessions)

create-Answers :
    (now : ℕ) (c : Bytes) (new : Session) (sm : SessionManager)
    → new.client_id ≡ c
    → new.last_active ≡ now
    → Answers now c (create new sm).0 (create new sm).1
unfolding create
create-Answers now c new sm e f = elim (Option-cases (reuse new sm.sessions)) [
  | inr (r, g) ↦ rw (g, create) (e, f)
  | inl g ↦ elim (Bool-cases (ltb (length sm.sessions) sm.max_sessions)) [
    | inl room ↦ rw (g, create) (rw room (e, f))
    | inr full ↦ rw (g, create) (rw full (reuse-none new sm.sessions g, ground arith))
  ]
]

-- `session_get_or_create` returns a session of the client, last active now, or returns none when
-- every place for a session is taken by an active one. The client's name fits its buffer.
pub session_get_or_create-Answers :
    (now : ℕ) (sm : SessionManager) (c : Bytes)
    → length c ≤ 63
    → Answers now c (session_get_or_create now sm c).0 (session_get_or_create now sm c).1
unfolding session_get_or_create new_session
session_get_or_create-Answers now sm c l =
    elim (Option-cases (touch now sm.timeout_secs c sm.sessions).1) [
      | inr (s, e) ↦
          rw (e, session_get_or_create) (touch-found now sm.timeout_secs c sm.sessions s e)
      | inl e ↦
          rw (e, session_get_or_create)
            (create-Answers now c (new_session now c) _ (take-all 63 c l) refl)
    ]
