-- ===== src/Orchestrator/Session/Apart.antt =====
-- What the two loops of `session_get_or_create` do to the sessions.
use khazar_os.Common.{
  ℕ, suc, ◌+◌, ◌≡◌, refl, ap, ◌∙◌, ◌⊎◌, inl, inr, true, false, none, some, List, [], ◌∷◌, ◌++◌,
  arith, ltb, length, Bool-cases, Option-cases,
}
use khazar_os.CString.{Bytes, str_eq}
use khazar_os.CString.Laws.{str_eq_iff, str_eq_comm}
use khazar_os.Common.{All, All-mono, All-append, AllPairs}
use khazar_os.Orchestrator.Session.{Session, touch, reuse}

-- Two sessions that are active have different clients.
abbrev pub Apart : Session → Session → Type 0
Apart s t = s.active ≡ true → t.active ≡ true → str_eq s.client_id t.client_id ≡ false

-- An active session is not the client's.
abbrev pub NotServing : Bytes → Session → Type 0
NotServing c s = s.active ≡ true → str_eq s.client_id c ≡ false

-- `s` is `t`, perhaps switched off.
abbrev Within : Session → Session → Type 0
Within s t = (s.client_id ≡ t.client_id) × (s.active ≡ true → t.active ≡ true)

abbrev pub AllWithin : List Session → List Session → Type 0
AllWithin [] [] = Unit
AllWithin (s ∷ ss) (t ∷ ts) = Within s t × AllWithin ss ts
AllWithin _ _ = ⊥

AllWithin-refl : (ss : List Session) → AllWithin ss ss
AllWithin-refl [] = tt
AllWithin-refl (s ∷ ss) = ((refl, λ a. a), AllWithin-refl ss)

Apart-Within : (s t s' t' : Session) → Within s' s → Within t' t → Apart s t → Apart s' t'
Apart-Within s t s' t' (e, f) (d, g) h a b = cc (e, d, h (f a) (g b))

All-Apart-Within :
    (s s' : Session) (ts ts' : List Session)
    → Within s' s
    → AllWithin ts' ts
    → All (Apart s) ts
    → All (Apart s') ts'
All-Apart-Within s s' [] [] w v h = tt
All-Apart-Within s s' [] (t' ∷ ts') w v h = absurd v
All-Apart-Within s s' (t ∷ ts) [] w v h = absurd v
All-Apart-Within s s' (t ∷ ts) (t' ∷ ts') w v h =
    (Apart-Within s t s' t' w v.0 h.0, All-Apart-Within s s' ts ts' w v.1 h.1)

pub AllPairs-Within :
    (ts ts' : List Session) → AllWithin ts' ts → AllPairs Apart ts → AllPairs Apart ts'
AllPairs-Within [] [] v h = tt
AllPairs-Within [] (t' ∷ ts') v h = absurd v
AllPairs-Within (t ∷ ts) [] v h = absurd v
AllPairs-Within (t ∷ ts) (t' ∷ ts') v h =
    (All-Apart-Within t t' ts ts' v.0 v.1 h.0, AllPairs-Within ts ts' v.1 h.1)

module _ (now timeout : ℕ) (c : Bytes) where
  pub touch-AllWithin : (ss : List Session) → AllWithin (touch now timeout c ss).0 ss
  unfolding touch
  touch-AllWithin [] = tt
  touch-AllWithin (s ∷ ss) = elim (Bool-cases (str_eq s.client_id c)) [
    | inl y ↦ elim (Bool-cases (ltb now (s.last_active + timeout))) [
      | inl fresh ↦ rw y (rw fresh ((refl, λ a. a), AllWithin-refl ss))
      | inr old ↦ rw y (rw old ((refl, λ a. cc a), touch-AllWithin ss))
    ]
    | inr n ↦ rw n ((refl, λ a. a), touch-AllWithin ss)
  ]

  pub touch-NotServing :
      (ss : List Session)
      → (touch now timeout c ss).1 ≡ none
      → All (NotServing c) (touch now timeout c ss).0
  unfolding touch
  touch-NotServing [] e = tt
  touch-NotServing (s ∷ ss) e = elim (Bool-cases (str_eq s.client_id c)) [
    | inl y ↦ elim (Bool-cases (ltb now (s.last_active + timeout))) [
      | inl fresh ↦ absurd (ground arith)
      | inr old ↦ rw y (rw old ((λ a. cc a), touch-NotServing ss (ground arith)))
    ]
    | inr n ↦ rw n ((λ a. n), touch-NotServing ss (ground arith))
  ]

  pub touch-found :
      (ss : List Session) (s : Session)
      → (touch now timeout c ss).1 ≡ some s
      → (s.client_id ≡ c) × (s.last_active ≡ now)
  unfolding touch
  touch-found [] s e = absurd (ground arith)
  touch-found (s ∷ ss) r e = ground (arith, touch-found ss r, str_eq_iff s.client_id c)

module _ (new : Session) where
  reuse_cases :
      (s : Session) (ss : List Session) {r : List Session}
      → reuse new (s ∷ ss) ≡ some r
      → ((s.active ≡ false) × (r ≡ new ∷ ss))
        ⊎ ((r' : List Session) × (reuse new ss ≡ some r') × (r ≡ s ∷ r'))
  unfolding reuse
  reuse_cases s ss e = elim (Bool-cases s.active) [
    | inr n ↦ inl (n, ground arith)
    | inl y ↦ elim (Option-cases (reuse new ss)) [
      | inl f ↦ absurd (ground arith)
      | inr (r', f) ↦ inr (r', f, ground arith)
    ]
  ]

  reuse-nil : {r : List Session} → reuse new [] ≡ some r → ⊥
  unfolding reuse
  reuse-nil e = ground arith

  pub length-reuse :
      (ss : List Session) {r : List Session} → reuse new ss ≡ some r → length r ≡ length ss
  length-reuse [] e = absurd (reuse-nil e)
  length-reuse (s ∷ ss) e = elim (reuse_cases s ss e) [
    | inl (n, d) ↦ rw d refl
    | inr (r', f, d) ↦ rw d (ap suc (length-reuse ss f))
  ]

  pub reuse-none : (ss : List Session) → reuse new ss ≡ none → All (λ s. s.active ≡ true) ss
  unfolding reuse
  reuse-none [] e = tt
  reuse-none (s ∷ ss) e = elim (Bool-cases s.active) [
    | inr n ↦ absurd (ground arith)
    | inl y ↦ elim (Option-cases (reuse new ss)) [
      | inl f ↦ (y, reuse-none ss f)
      | inr (r', f) ↦ absurd (ground arith)
    ]
  ]

  Apart-new : (ss : List Session) → All (NotServing new.client_id) ss → All (Apart new) ss
  Apart-new ss = All-mono ss (λ s h a b. str_eq_comm new.client_id s.client_id ∙ h b)

  reuse-All :
      (P : Session → Type 0) (ss : List Session) {r : List Session}
      → reuse new ss ≡ some r
      → P new
      → All P ss
      → All P r
  reuse-All P [] e p h = absurd (reuse-nil e)
  reuse-All P (s ∷ ss) e p h = elim (reuse_cases s ss e) [
    | inl (n, d) ↦ rw d (p, h.1)
    | inr (r', f, d) ↦ rw d (h.0, reuse-All P ss f p h.1)
  ]

  pub reuse-Apart :
      (ss : List Session) {r : List Session}
      → reuse new ss ≡ some r
      → All (NotServing new.client_id) ss
      → AllPairs Apart ss
      → AllPairs Apart r
  reuse-Apart [] e n h = absurd (reuse-nil e)
  reuse-Apart (s ∷ ss) e n h = elim (reuse_cases s ss e) [
    | inl (_, d) ↦ rw d (Apart-new ss n.1, h.1)
    | inr (r', f, d) ↦ rw d (reuse-All (Apart s) ss f (λ a b. n.0 a) h.0, reuse-Apart ss f n.1 h.1)
  ]

  pub append-Apart :
      (ss : List Session)
      → All (NotServing new.client_id) ss
      → AllPairs Apart ss
      → AllPairs Apart (ss ++ new ∷ [])
  append-Apart [] n h = (tt, tt)
  append-Apart (s ∷ ss) n h =
      (All-append (Apart s) ss (new ∷ []) h.0 ((λ a b. n.0 a), tt), append-Apart ss n.1 h.1)
