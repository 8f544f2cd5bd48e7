-- ===== src/Sdk/Events/Unique.antt =====
-- The subscribers of an event loop (khazar/sdk/events/events.c).
use khazar_os.Common.{
  ℕ, ◌≤◌, ◌<◌, ◌≡◌, refl, ap, ◌∙◌, ◌⊎◌, inl, inr, false, ◌&&◌, none, some, List, [], ◌∷◌, ◌++◌,
  arith, leb, ◌==◌, length, Bool-cases, Option-cases, length-append,
}
use khazar_os.CString.{Bytes, strncpy}
use khazar_os.CString.Laws.{str_eq_comm, take-all}
use khazar_os.Common.{
  All, All-mono, All-append, AllPairs, change_first, change_first-none, length-change_first,
  All-change_first, AllPairs-change_first, remove_first, length-remove_first, All-remove_first,
  AllPairs-remove_first, AllPairs-snoc,
}
use khazar_os.Sdk.Events.{
  Subscriber, EventLoop, event_loop_init, max_subscribers, is_for, with_ctx, subscribed,
  event_subscribe, event_unsubscribe,
}

-- Two subscribers differ in the type or the handler.
abbrev pub Differs : Subscriber → Subscriber → Type 0
Differs s t = is_for s.event_type s.handler t ≡ false

abbrev pub HasHandler : Subscriber → Type 0
HasHandler s = (s.handler == 0) ≡ false

-- What the array of subscribers is at all times.
pub record IsValid (subs : List Subscriber) : Type 0 where
  pub fits : length subs ≤ max_subscribers
  pub handled : All HasHandler subs
  pub distinct : AllPairs Differs subs

Differs-comm : (s t : Subscriber) → Differs s t → Differs t s
Differs-comm s t h =
    ap (λ b. b && s.handler == t.handler) (str_eq_comm s.event_type t.event_type)
    ∙ ground (arith, h)

Others : Bytes → ℕ → Subscriber → Type 0
Others event_type handler s = is_for event_type handler s ≡ false

subscribed_cases :
    (event_type : Bytes) (handler ctx : ℕ) (subs : List Subscriber)
    → ((r : List Subscriber) × (change_first (is_for event_type handler) (with_ctx ctx) subs
          ≡ some r)
        × (subscribed event_type handler ctx subs ≡ r))
      ⊎ ((change_first (is_for event_type handler) (with_ctx ctx) subs ≡ none)
          × (subscribed event_type handler ctx subs
              ≡ subs
                ++ record { event_type = strncpy 63 event_type; handler = handler; ctx = ctx }
                  ∷ []))
unfolding subscribed
subscribed_cases event_type handler ctx subs =
    elim (Option-cases (change_first (is_for event_type handler) (with_ctx ctx) subs)) [
      | inl e ↦ inr (e, rw (subscribed, e) refl)
      | inr (r, e) ↦ inl (r, e, rw (subscribed, e) refl)
    ]

subscribed-IsValid :
    (event_type : Bytes) (handler ctx : ℕ) (subs : List Subscriber)
    → length event_type ≤ 63
    → (handler == 0) ≡ false
    → length subs < max_subscribers
    → IsValid subs
    → IsValid (subscribed event_type handler ctx subs)
subscribed-IsValid event_type handler ctx subs h n l v =
    elim (subscribed_cases event_type handler ctx subs) [
      | inl (r, e, d) ↦ rw d record {
        fits =
            omega (arith, length-change_first (is_for event_type handler) (with_ctx ctx) subs e, l);
        handled =
            All-change_first (is_for event_type handler) HasHandler (with_ctx ctx) (λ x k. k) subs e
              v.handled;
        distinct =
            AllPairs-change_first (is_for event_type handler) Differs (with_ctx ctx) (λ x y k. k)
              (λ x y k. k) subs e v.distinct;
      }
      | inr (e, d) ↦ rw d (
          rw (take-all 63 event_type h) record {
            fits = omega (
              arith,
              l,
              length-append subs
                  (record { event_type = event_type; handler = handler; ctx = ctx } ∷ []),
            );
            handled = All-append HasHandler subs _ v.handled (n, tt);
            distinct = AllPairs-snoc Differs subs _ v.distinct (
                All-mono subs
                  (λ s k.
                    Differs-comm record { event_type = event_type; handler = handler; ctx = ctx } s
                      k)
                  (change_first-none (is_for event_type handler) (with_ctx ctx) subs e));
          })
    ]

remove_first-IsValid :
    (event_type : Bytes) (handler : ℕ) (subs : List Subscriber) {r : List Subscriber}
    → remove_first (is_for event_type handler) subs ≡ some r
    → IsValid subs
    → IsValid r
remove_first-IsValid event_type handler subs e v = record {
  fits = omega (arith, length-remove_first (is_for event_type handler) subs e, v.fits);
  handled = All-remove_first (is_for event_type handler) HasHandler subs e v.handled;
  distinct =
      AllPairs-remove_first (is_for event_type handler) Differs Differs-comm subs e v.distinct;
}

-- The loops that the operations make, with types of events that fit.
pub data Reachable : EventLoop → Type 0 where
  initial : Reachable event_loop_init
  subscribe :
      (el : EventLoop) (event_type : Bytes) (handler ctx : ℕ)
      → length event_type ≤ 63
      → Reachable el
      → Reachable (event_subscribe el event_type handler ctx).0
  unsubscribe :
      (el : EventLoop) (event_type : Bytes) (handler : ℕ)
      → Reachable el
      → Reachable (event_unsubscribe el event_type handler).0

event_subscribe-IsValid :
    (el : EventLoop) (event_type : Bytes) (handler ctx : ℕ)
    → length event_type ≤ 63
    → IsValid el.subscribers
    → IsValid (event_subscribe el event_type handler ctx).0.subscribers
unfolding event_subscribe
event_subscribe-IsValid el event_type handler ctx h v = elim (Bool-cases (handler == 0)) [
  | inl y ↦ rw y v
  | inr n ↦ elim (Bool-cases (leb max_subscribers (length el.subscribers))) [
    | inl y ↦ rw (n, y) v
    | inr m ↦
        rw (n, m)
          (subscribed-IsValid event_type handler ctx el.subscribers h n (ground (arith, m)) v)
  ]
]

event_unsubscribe-IsValid :
    (el : EventLoop) (event_type : Bytes) (handler : ℕ)
    → IsValid el.subscribers
    → IsValid (event_unsubscribe el event_type handler).0.subscribers
unfolding event_unsubscribe
event_unsubscribe-IsValid el event_type handler v = elim (Bool-cases (handler == 0)) [
  | inl y ↦ rw y v
  | inr n ↦ elim (Option-cases (remove_first (is_for event_type handler) el.subscribers)) [
    | inl e ↦ rw (event_unsubscribe, n, e) v
    | inr (r, e) ↦
        rw (event_unsubscribe, n, e) (remove_first-IsValid event_type handler el.subscribers e v)
  ]
]

-- In a loop that the operations have made the subscribers fit in the array, each has a handler, and no
-- two agree in the type of event and the handler, if the types subscribed to have at most 63 bytes.
pub Reachable-IsValid : (el : EventLoop) → Reachable el → IsValid el.subscribers
Reachable-IsValid _ initial = record { fits = omega arith; handled = tt; distinct = tt }
Reachable-IsValid _ (subscribe el event_type handler ctx h r) =
    event_subscribe-IsValid el event_type handler ctx h (Reachable-IsValid el r)
Reachable-IsValid _ (unsubscribe el event_type handler r) =
    event_unsubscribe-IsValid el event_type handler (Reachable-IsValid el r)
