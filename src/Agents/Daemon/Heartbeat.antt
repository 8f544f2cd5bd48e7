-- ===== src/Agents/Daemon/Heartbeat.antt =====
-- The orchestrator and the heartbeat of an agent (khazar/components/orchestrator/main.c).
use khazar_os.Common.{
  ℕ, ◌≤◌, ◌≡◌, refl, ap, ◌∙◌, false, none, [], ◌∷◌, ◌++◌, arith, length, length-append,
}
use khazar_os.CString.{Bytes, lit, str_eq, has_prefix, strstr, is_some}
use khazar_os.CString.Laws.{take-all}
use khazar_os.CString.Lines.{decimal, length-decimal_le}
use khazar_os.CString.Quoted.{
  NoQuote, strstr_member, strstr_value, strstr_skip, NoQuote-is_quote_free, NoQuote-decimal,
}
use khazar_os.Orchestrator.Message.{protocol_parse}
use khazar_os.Orchestrator.Registry.{Registry}
use khazar_os.Orchestrator.Handler.{World, on_request_handler}
use khazar_os.Agents.Daemon.{Identity, heartbeat_message}

abbrev heartbeat_text : Bytes → ℕ → Bytes
heartbeat_text name now =
    lit "{\"type\":\"heartbeat\",\"name\":\""
    ++ (name ++ (lit "\",\"timestamp\":" ++ (decimal now ++ lit "}")))

-- The digits and the bracket hold no quote.
strstr-rest : (now : ℕ) (p : Bytes) → strstr (decimal now ++ lit "}") (b'"' ∷ p) ≡ none
unfolding strstr has_prefix
strstr-rest now p = strstr_skip (decimal now) (lit "}") p (NoQuote-decimal now)

module _ (name : Bytes) (now : ℕ) (free : NoQuote name) where
  strstr-type :
      (w : Bytes)
      → ((s : Bytes) → has_prefix (w ++ b'"' ∷ []) (lit "heartbeat\",\"name\":\"" ++ s) ≡ false)
      → strstr (heartbeat_text name now) (lit "\"type\":\"" ++ (w ++ b'"' ∷ [])) ≡ none
  unfolding strstr has_prefix
  strstr-type w f = rw (f (name ++ (lit "\",\"timestamp\":" ++ (decimal now ++ lit "}")))) (
      strstr_member (lit "type") name (b'"' ∷ (w ++ b'"' ∷ []))
        (lit "\"timestamp\":" ++ (decimal now ++ lit "}")) b',' b':'
        (NoQuote-is_quote_free (lit "type") refl) free refl
      ∙ strstr-rest now _)

  strstr-query :
      str_eq name (lit "query") ≡ false → strstr (heartbeat_text name now) (lit "\"query\"") ≡ none
  unfolding strstr has_prefix
  strstr-query q =
      strstr_value (lit "query") name (lit ",\"timestamp\":" ++ (decimal now ++ lit "}"))
        (NoQuote-is_quote_free (lit "query") refl) free q
      ∙ strstr-rest now _

  protocol_parse-heartbeat :
      str_eq name (lit "query") ≡ false → protocol_parse (heartbeat_text name now) ≡ none
  unfolding protocol_parse is_some
  protocol_parse-heartbeat q =
      rw
        (
          strstr-type (lit "ping") (λ s. refl),
          strstr-type (lit "request") (λ s. refl),
          strstr-type (lit "register") (λ s. refl),
          strstr-query q,
        )
        refl

handler-refused :
    (w : World) (now : ℕ) (reg : Registry) (raw : Bytes)
    → protocol_parse raw ≡ none
    → (on_request_handler w now reg raw).registry ≡ reg
unfolding on_request_handler
handler-refused w now reg raw e = rw (e, on_request_handler) refl

-- The orchestrator takes no note of a heartbeat: the registry stays as it is, with the time of the agent's
-- last heartbeat, for every agent whose name is not "query", holds no quote and has at most 63 bytes.
pub on_request_handler-heartbeat :
    (w : World) (now sent : ℕ) (reg : Registry) (id : Identity)
    → NoQuote id.name
    → length id.name ≤ 63
    → str_eq id.name (lit "query") ≡ false
    → (on_request_handler w now reg (heartbeat_message id sent)).registry ≡ reg
unfolding heartbeat_message
on_request_handler-heartbeat w now sent reg id free short q =
    let fits : length (heartbeat_text id.name sent) ≤ 255 = omega (
      arith,
      length-append id.name (lit "\",\"timestamp\":" ++ (decimal sent ++ lit "}")),
      length-append (decimal sent) (lit "}"),
      length-decimal_le sent,
      short,
    ) in
    ap (λ raw. (on_request_handler w now reg raw).registry)
      (take-all 255 (heartbeat_text id.name sent) fits)
    ∙ handler-refused w now reg (heartbeat_text id.name sent)
        (protocol_parse-heartbeat id.name sent free q)
