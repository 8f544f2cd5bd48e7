-- ===== src/Sdk/Events.antt =====
-- The event loop of an agent: khazar/sdk/events/events.c. `subscribers[0 .. count)` is a list, a pointer
-- to a function or to its context a number, 0 for NULL. What a handler does is an argument: it may
-- change the loop that calls it. The operations are called on a loop that exists.
pub mod Unique
pub mod Publish
use khazar_os.Common.{
  ℕ, zero, suc, ◌+◌, ◌-◌, ◌*◌, ◌/◌, ◌%◌, ◌^◌, ◌≤◌, ◌<◌, ◌≡◌, refl, sym, ap, ◌∙◌, ◌≢◌, ◌↔◌, ◌⊎◌, inl,
  inr, Bool, true, false, not, ◌&&◌, ◌||◌, Option, none, some, List, [], ◌∷◌, ◌++◌, map, arith, leb,
  ltb, ◌==◌, if◌then◌else◌, length, take, drop, get_or, get_elem?, set, ℤ, pos, negsuc, ltb_ℤ,
  pos_part, neg_part, sub_ℕ, ◌+ℤ◌, ◌≤ℤ◌, ◌<ℤ◌, ◌>>=◌, Bool-cases, Option-cases, length-append,
  length-set, replicate, ltb→lt, lt→ltb,
}
use khazar_os.CString.{
  Bytes, lit, str_eq, strncpy, has_prefix, strstr, is_some, contains, strchr, tolower, isspace,
  skip_spaces,
}
use khazar_os.Common.{change_first, remove_first}

pub record Subscriber : Type 0 where
  pub event_type : Bytes
  pub handler : ℕ
  pub ctx : ℕ

pub record EventLoop : Type 0 where
  pub subscribers : List Subscriber
  pub running : Bool
  pub has_pending : Bool
  pub pending_type : Bytes
  pub pending_data : Bytes

abbrev pub max_subscribers : ℕ
max_subscribers = 32

abbrev pub event_loop_init : EventLoop
event_loop_init = record {
  subscribers = [];
  running = false;
  has_pending = false;
  pending_type = [];
  pending_data = [];
}

-- strcmp(s.event_type, event_type) == 0 && s.handler == handler
abbrev pub is_for : Bytes → ℕ → Subscriber → Bool
is_for event_type handler s = str_eq s.event_type event_type && s.handler == handler

abbrev pub with_subscribers : EventLoop → List Subscriber → EventLoop
with_subscribers el subs = record el { subscribers = subs }

abbrev pub with_ctx : ℕ → Subscriber → Subscriber
with_ctx ctx s = record s { ctx = ctx }

-- The first subscriber of that type and handler gets the context, or there is a new one.
unfoldable pub subscribed : Bytes → ℕ → ℕ → List Subscriber → List Subscriber
unfolding change_first
subscribed event_type handler ctx subs =
    elim (change_first (is_for event_type handler) (with_ctx ctx) subs) [
      | some subs' ↦ subs'
      | none ↦
          subs ++ record { event_type = strncpy 63 event_type; handler = handler; ctx = ctx } ∷ []
    ]

-- The new loop, and whether the call returns 0, here and below.
unfoldable pub event_subscribe : EventLoop → Bytes → ℕ → ℕ → EventLoop × Bool
unfolding subscribed
event_subscribe el event_type handler ctx =
    if handler == 0
    then (el, false)
    else if leb max_subscribers (length el.subscribers)
    then (el, false)
    else (with_subscribers el (subscribed event_type handler ctx el.subscribers), true)

-- The last subscriber takes the place of the first of that type and handler.
unfoldable pub event_unsubscribe : EventLoop → Bytes → ℕ → EventLoop × Bool
unfolding remove_first
event_unsubscribe el event_type handler =
    if handler == 0
    then (el, false)
    else elim (remove_first (is_for event_type handler) el.subscribers) [
      | some subs ↦ (with_subscribers el subs, true)
      | none ↦ (el, false)
    ]

-- `call handler event_type data ctx` on the loop and on all that a handler changes beside it.
module _ {W : Type 0} (call : ℕ → Bytes → Bytes → ℕ → EventLoop × W → EventLoop × W) where
  -- The body of the loop of `event_publish`, with the number of calls so far.
  unfoldable pub deliver : Bytes → Bytes → Subscriber → (EventLoop × W) × ℕ → (EventLoop × W) × ℕ
  deliver event_type payload s (world, delivered) =
      if str_eq s.event_type event_type && not (s.handler == 0)
      then (call s.handler event_type payload s.ctx world, suc delivered)
      else (world, delivered)

  -- The loop from position `i` on, `none` when the fuel is at its end. The handlers may have changed
  -- the array and its count, which are read again in each round.
  unfoldable pub publish_from :
      ℕ → ℕ → Bytes → Bytes → (EventLoop × W) × ℕ → Option ((EventLoop × W) × ℕ)
  unfolding deliver
  publish_from zero i event_type payload state = none
  publish_from (suc fuel) i event_type payload state = elim (get_elem? state.0.0.subscribers i) [
    | none ↦ some state
    | some s ↦ publish_from fuel (suc i) event_type payload (deliver event_type payload s state)
  ]

  abbrev pub event_publish : Bytes → Bytes → EventLoop × W → Option ((EventLoop × W) × ℕ)
  event_publish event_type payload world =
      publish_from (suc max_subscribers) 0 event_type payload (world, 0)

  abbrev pub clear_pending : (EventLoop × W) × ℕ → (EventLoop × W) × ℕ
  clear_pending ((el, w), delivered) = ((record el { has_pending = false }, w), delivered)

  unfoldable pub event_process_pending : EventLoop × W → Option ((EventLoop × W) × ℕ)
  unfolding publish_from
  event_process_pending world =
      if world.0.has_pending
      then elim (event_publish world.0.pending_type world.0.pending_data world) [
        | none ↦ none
        | some state ↦ some (clear_pending state)
      ]
      else some (world, 0)
