-- ===== src/Sdk/Tests.antt =====
-- The library of the agents at concrete inputs.
mod Agent
use khazar_os.Sdk.Ipc.{wrote, again, failed, ipc_client_send}
use khazar_os.Sdk.Ipc.Whole.{ipc_client_send-whole}
use khazar_os.Common.{
  ℕ, zero, suc, ◌+◌, ◌-◌, ◌*◌, ◌/◌, ◌%◌, ◌^◌, ◌≤◌, ◌<◌, ◌≡◌, refl, sym, ap, ◌∙◌, ◌≢◌, ◌↔◌, ◌⊎◌, inl,
  inr, Bool, true, false, not, ◌&&◌, ◌||◌, Option, none, some, List, [], ◌∷◌, ◌++◌, map, arith, leb,
  ltb, ◌==◌, if◌then◌else◌, length, take, drop, get_or, get_elem?, set, ℤ, pos, negsuc, ltb_ℤ,
  pos_part, neg_part, sub_ℕ, ◌+ℤ◌, ◌≤ℤ◌, ◌<ℤ◌, ◌>>=◌, Bool-cases, Option-cases, length-append,
  length-set, replicate, ltb→lt, lt→ltb,
}
use khazar_os.CString.{
  Bytes, lit, str_eq, strncpy, has_prefix, strstr, is_some, contains, strchr, tolower, isspace,
  skip_spaces,
}
use khazar_os.Sdk.Json.{
  json_escape, json_extract_string, json_extract_int, json_extract_bool, json_extract_string_array,
}
use khazar_os.Sdk.Json.RoundTrip.{json_escape_bound, first_member, json_extract_string-json_escape}
use khazar_os.Sdk.Events.{
  Subscriber, EventLoop, event_loop_init, event_subscribe, event_unsubscribe, max_subscribers,
  event_publish, with_subscribers,
}
use khazar_os.Sdk.Events.Unique.{
  IsValid, Reachable, initial, subscribe, unsubscribe, Reachable-IsValid,
}
use khazar_os.Sdk.Events.Publish.{
  Given, event_publish-Given, deliver_all, event_publish-deliver_all,
}
use khazar_os.Sdk.Events.{publish_from}

json_escape_bound_test : length (lit "a\\\"") + 1 ≤ 5
unfolding json_escape
json_escape_bound_test =
    json_escape_bound (lit "a\"bc") 5 (lit "a\\\"") (omega arith) (omega arith) refl

json_extract_string-json_escape_example :
    json_extract_string (first_member (lit "k") (lit "a\\\"\\n") (lit "}")) (lit "k") 8
    ≡ some (lit "a\"\n")
unfolding json_escape
json_extract_string-json_escape_example =
    json_extract_string-json_escape (lit "k") (lit "a\"\n") (lit "}") (lit "a\\\"\\n") 8 8
      (omega arith) (omega arith) (omega arith) (omega arith) refl

-- A buffer of one byte is run over, since `dst_len - 2` wraps around.
one_byte_test : json_escape (lit "abc") 1 ≡ some (lit "abc")
unfolding json_escape
one_byte_test = refl

array_test :
    json_extract_string_array (lit "{\"c\": [\"a\", \"b\"]}") (lit "c") 32
    ≡ some (lit "a" ∷ lit "b" ∷ [])
unfolding json_extract_string_array
array_test = refl

numbers_test :
    (json_extract_int (lit "{\"id\" : -12}") (lit "id") ≡ some (negsuc 11))
    × (json_extract_bool (lit "{\"on\":false") (lit "on") ≡ some false)
unfolding json_extract_int json_extract_bool
numbers_test = (refl, refl)

Reachable-IsValid_example :
    IsValid
      (event_unsubscribe
        (event_subscribe event_loop_init (lit "e") 7 0).0
        (lit "e")
        7).0.subscribers
Reachable-IsValid_example =
    let el = (event_subscribe event_loop_init (lit "e") 7 0).0 in
    Reachable-IsValid (event_unsubscribe el (lit "e") 7).0
      (unsubscribe el (lit "e") 7 (subscribe event_loop_init (lit "e") 7 0 (omega arith) initial))

-- A handler that is called once: it ends its own subscription.
once : ℕ → Bytes → Bytes → ℕ → EventLoop × List ℕ → EventLoop × List ℕ
once handler event_type payload ctx (el, log) = (with_subscribers el [], handler ∷ log)

once_keeps :
    (h : ℕ) (t d : Bytes) (c : ℕ) (world : EventLoop × List ℕ)
    → length world.0.subscribers ≤ max_subscribers
    → length (once h t d c world).0.subscribers ≤ max_subscribers
unfolding once
once_keeps h t d c world l = omega arith

abbrev two_handlers : EventLoop
two_handlers = with_subscribers event_loop_init (
    record { event_type = lit "e"; handler = 7; ctx = 0 }
    ∷ record { event_type = lit "e"; handler = 8; ctx = 1 }
    ∷ [])

event_publish-Given_example : Given (event_publish once (lit "e") [] (two_handlers, []))
event_publish-Given_example =
    event_publish-Given once once_keeps (lit "e") [] (two_handlers, []) (omega arith)

keep_log : ℕ → Bytes → Bytes → ℕ → EventLoop × List ℕ → EventLoop × List ℕ
keep_log handler event_type payload ctx (el, log) = (el, handler ∷ log)

keep_log_keeps :
    (h : ℕ) (t d : Bytes) (c : ℕ) (world : EventLoop × List ℕ)
    → (keep_log h t d c world).0.subscribers ≡ world.0.subscribers
unfolding keep_log
keep_log_keeps h t d c world = refl

event_publish-deliver_all_test :
    event_publish keep_log (lit "e") [] (two_handlers, [])
    ≡ some (deliver_all keep_log (lit "e") [] two_handlers.subscribers ((two_handlers, []), 0))
event_publish-deliver_all_test =
    event_publish-deliver_all keep_log keep_log_keeps (lit "e") [] (two_handlers, []) (omega arith)

two_calls_test :
    event_publish keep_log (lit "e") [] (two_handlers, []) ≡ some ((two_handlers, 8 ∷ 7 ∷ []), 2)
unfolding publish_from str_eq keep_log
two_calls_test = refl

ipc_client_send-whole_example :
    ipc_client_send
      (record { has_fd = true; connected = true })
      (wrote 1 ∷ again ∷ wrote 2 ∷ wrote 1 ∷ [])
      (lit "abc")
    ≡ some (lit "abc", true)
ipc_client_send-whole_example =
    ipc_client_send-whole (record { has_fd = true; connected = true })
      (wrote 1 ∷ again ∷ wrote 2 ∷ wrote 1 ∷ []) (lit "abc") refl (omega arith)

cut_test :
    ipc_client_send (record { has_fd = true; connected = true }) (wrote 1 ∷ failed ∷ []) (lit "abc")
    ≡ some (lit "a", false)
unfolding ipc_client_send
cut_test = refl
