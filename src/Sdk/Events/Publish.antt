-- ===== src/Sdk/Events/Publish.antt =====
-- Publishing an event while the handlers change the loop (khazar/sdk/events/events.c).
use khazar_os.Common.{
  ℕ, zero, suc, ◌+◌, ◌≤◌, ◌<◌, ◌≡◌, refl, sym, ap, ◌∙◌, inl, inr, not, ◌&&◌, Option, none, some,
  List, [], ◌∷◌, arith, ◌==◌, length, drop, get_elem?, Bool-cases, Option-cases,
}
use khazar_os.CString.{Bytes, str_eq}
use khazar_os.Sdk.Events.{
  Subscriber, EventLoop, max_subscribers, deliver, publish_from, event_publish,
}

-- Something of type A is there.
abbrev pub Given {ℓ} : {A : Type ℓ} → Option A → Type ℓ
Given {A = A} o = (x : A) × (o ≡ some x)

get_elem?-inside {ℓ} :
    {A : Type ℓ} (xs : List A) (i : ℕ) {x : A} → get_elem? xs i ≡ some x → i < length xs
get_elem?-inside [] i e = absurd (ground arith)
get_elem?-inside (x ∷ xs) zero e = omega arith
get_elem?-inside (x ∷ xs) (suc i) e = omega (arith, get_elem?-inside xs i e)

module _ {W : Type 0} (call : ℕ → Bytes → Bytes → ℕ → EventLoop × W → EventLoop × W) where
  publish_from-end :
      (fuel i : ℕ) (t d : Bytes) (state : (EventLoop × W) × ℕ)
      → get_elem? state.0.0.subscribers i ≡ none
      → publish_from call (suc fuel) i t d state ≡ some state
  unfolding publish_from
  publish_from-end fuel i t d state e = rw (publish_from, e) refl

  publish_from-step :
      (fuel i : ℕ) (t d : Bytes) (state : (EventLoop × W) × ℕ) {s : Subscriber}
      → get_elem? state.0.0.subscribers i ≡ some s
      → publish_from call (suc fuel) i t d state
        ≡ publish_from call fuel (suc i) t d (deliver call t d s state)
  unfolding publish_from
  publish_from-step fuel i t d state e = rw (publish_from, e) refl

module _ {W : Type 0} (call : ℕ → Bytes → Bytes → ℕ → EventLoop × W → EventLoop × W)
    (keeps : (h : ℕ) (t d : Bytes) (c : ℕ) (world : EventLoop × W)
      → length world.0.subscribers ≤ max_subscribers
      → length (call h t d c world).0.subscribers ≤ max_subscribers) where
  length-deliver_le :
      (t d : Bytes) (s : Subscriber) (state : (EventLoop × W) × ℕ)
      → length state.0.0.subscribers ≤ max_subscribers
      → length (deliver call t d s state).0.0.subscribers ≤ max_subscribers
  unfolding deliver
  length-deliver_le t d s state h =
      elim (Bool-cases (str_eq s.event_type t && not (s.handler == 0))) [
        | inl y ↦ rw y (keeps s.handler t d s.ctx state.0 h)
        | inr n ↦ rw n h
      ]

  publish_from-Given :
      (fuel i : ℕ) (t d : Bytes) (state : (EventLoop × W) × ℕ)
      → length state.0.0.subscribers ≤ max_subscribers
      → i ≤ max_subscribers
      → max_subscribers < fuel + i
      → Given (publish_from call fuel i t d state)
  unfolding publish_from
  publish_from-Given zero i t d state h l f = absurd (omega (arith, l, f))
  publish_from-Given (suc fuel) i t d state h l f =
      elim (Option-cases (get_elem? state.0.0.subscribers i)) [
        | inl e ↦ (state, publish_from-end call fuel i t d state e)
        | inr (s, e) ↦
            let inside = get_elem?-inside state.0.0.subscribers i e in
            let next = deliver call t d s state in
            let (r, done) =
              publish_from-Given fuel (suc i) t d next (length-deliver_le t d s state h)
                (omega (arith, inside, h)) (omega (arith, f)) in
            (r, publish_from-step call fuel i t d state e ∙ done)
      ]

  -- `event_publish` ends, whatever the handlers do to the loop that calls them, if no handler makes the
  -- subscribers more than the array holds and they are no more before.
  pub event_publish-Given :
      (t d : Bytes) (world : EventLoop × W)
      → length world.0.subscribers ≤ max_subscribers
      → Given (event_publish call t d world)
  event_publish-Given t d world h =
      publish_from-Given (suc max_subscribers) 0 t d (world, 0) h (omega arith) (omega arith)

-- Delivery to each subscriber of a list, in order.
pub deliver_all :
    {W : Type 0}
    → (ℕ → Bytes → Bytes → ℕ → EventLoop × W → EventLoop × W)
    → Bytes
    → Bytes
    → List Subscriber
    → (EventLoop × W) × ℕ
    → (EventLoop × W) × ℕ
deliver_all call t d [] state = state
deliver_all call t d (s ∷ subs) state = deliver_all call t d subs (deliver call t d s state)

drop-get_elem? {ℓ} :
    {A : Type ℓ} (xs : List A) (i : ℕ) {x : A}
    → get_elem? xs i ≡ some x
    → drop i xs ≡ x ∷ drop (suc i) xs
drop-get_elem? [] i e = absurd (ground arith)
drop-get_elem? (y ∷ xs) zero e = ground (arith, e)
drop-get_elem? (y ∷ xs) (suc i) e = drop-get_elem? xs i e

drop-beyond {ℓ} : {A : Type ℓ} (xs : List A) (i : ℕ) → get_elem? xs i ≡ none → drop i xs ≡ []
drop-beyond [] zero e = refl
drop-beyond [] (suc i) e = refl
drop-beyond (y ∷ xs) zero e = absurd (ground arith)
drop-beyond (y ∷ xs) (suc i) e = drop-beyond xs i e

module _ {W : Type 0} (call : ℕ → Bytes → Bytes → ℕ → EventLoop × W → EventLoop × W)
    (keeps : (h : ℕ) (t d : Bytes) (c : ℕ) (world : EventLoop × W)
      → (call h t d c world).0.subscribers ≡ world.0.subscribers) where
  deliver-subscribers :
      (t d : Bytes) (s : Subscriber) (state : (EventLoop × W) × ℕ)
      → (deliver call t d s state).0.0.subscribers ≡ state.0.0.subscribers
  unfolding deliver
  deliver-subscribers t d s state =
      elim (Bool-cases (str_eq s.event_type t && not (s.handler == 0))) [
        | inl y ↦ rw y (keeps s.handler t d s.ctx state.0)
        | inr n ↦ rw n refl
      ]

  publish_from-deliver_all :
      (fuel i : ℕ) (t d : Bytes) (subs : List Subscriber) (state : (EventLoop × W) × ℕ)
      → state.0.0.subscribers ≡ subs
      → i ≤ length subs
      → length subs < fuel + i
      → publish_from call fuel i t d state ≡ some (deliver_all call t d (drop i subs) state)
  unfolding deliver_all
  publish_from-deliver_all zero i t d subs state e l f = absurd (omega (arith, l, f))
  publish_from-deliver_all (suc fuel) i t d subs state e l f =
      elim (Option-cases (get_elem? subs i)) [
        | inl g ↦
            publish_from-end call fuel i t d state (ap (λ xs. get_elem? xs i) e ∙ g)
            ∙ ap (λ xs. some (deliver_all call t d xs state)) (sym (drop-beyond subs i g))
        | inr (s, g) ↦
            let next = deliver call t d s state in
            publish_from-step call fuel i t d state (ap (λ xs. get_elem? xs i) e ∙ g)
            ∙ publish_from-deliver_all fuel (suc i) t d subs next
                (deliver-subscribers t d s state ∙ e) (omega (arith, get_elem?-inside subs i g))
                (omega (arith, f))
            ∙ ap (λ xs. some (deliver_all call t d xs state)) (sym (drop-get_elem? subs i g))
      ]

  -- `event_publish` calls each handler that subscribes to the type of event, in the order of the array,
  -- and counts the calls, if the handlers leave the subscribers as they are and these are no more than the
  -- array holds.
  pub event_publish-deliver_all :
      (t d : Bytes) (world : EventLoop × W)
      → length world.0.subscribers ≤ max_subscribers
      → event_publish call t d world ≡ some (deliver_all call t d world.0.subscribers (world, 0))
  event_publish-deliver_all t d world h =
      publish_from-deliver_all (suc max_subscribers) 0 t d world.0.subscribers (world, 0) refl
        (omega arith) (omega (arith, h))
