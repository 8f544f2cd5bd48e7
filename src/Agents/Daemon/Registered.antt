-- ===== src/Agents/Daemon/Registered.antt =====
-- The orchestrator reads the registration of an agent (khazar/components/orchestrator/main.c).
use khazar_os.Common.{
  ℕ, zero, suc, ◌≤◌, ◌≡◌, refl, ap, ◌∙◌, true, false, none, some, List, [], ◌∷◌, ◌++◌, arith,
  length, drop, ◌>>=◌,
}
use khazar_os.CString.{Bytes, lit, str_eq, has_prefix, strstr, is_some, contains, strchr}
use mathlib.Core.List.{append_assoc}
use khazar_os.Common.{All}
use khazar_os.CString.Laws.{take-all}
use khazar_os.CString.Lines.{span_not}
use khazar_os.CString.Quoted.{
  NoQuote, strstr_member, strstr_value, span_not-value, NoQuote-is_quote_free,
}
use khazar_os.Orchestrator.Agent.{AgentInfo}
use khazar_os.Orchestrator.Message.{register, no_request, protocol_parse}
use khazar_os.Orchestrator.Registry.{Registry, registry_register}
use khazar_os.Orchestrator.Handler.{
  World, member, or_empty, socket_member, next_item, capability_items, parse_agent, on_register,
  on_request_handler,
}
use khazar_os.Agents.Daemon.{Identity, quoted, register_text, register_message}

-- A text without a quote, of at most `n` bytes, that is none of the keys for which the orchestrator looks.
pub record IsText (n : ℕ) (v : Bytes) : Type 0 where
  pub free : NoQuote v
  pub short : length v ≤ n
  pub not_query : str_eq v (lit "query") ≡ false
  pub not_version : str_eq v (lit "version") ≡ false
  pub not_socket : str_eq v (lit "socket") ≡ false
  pub not_capabilities : str_eq v (lit "capabilities") ≡ false

pub record IsIdentity (id : Identity) : Type 0 where
  pub name_text : IsText 63 id.name
  pub name_ne_nil : 1 ≤ length id.name
  pub version_text : IsText 15 id.version
  pub socket_text : IsText 255 id.socket
  pub capability_texts : All (IsText 63) id.capabilities
  pub capability_count : length id.capabilities ≤ 32
  pub fits : length (register_text id) ≤ 4095

-- What the orchestrator is to register.
abbrev pub agent_of : ℕ → Identity → AgentInfo
agent_of now id = record {
  name = id.name;
  version = id.version;
  socket_path = id.socket;
  capabilities = id.capabilities;
  alive = true;
  last_heartbeat = now;
}

-- A key that the registration does not hold, after its quote.
record Absent (p : Bytes) : Type 0 where
  front :
      (s : Bytes)
      → strstr (lit "{\"type\":\"register\",\"name\":\"" ++ s) (b'"' ∷ p)
        ≡ strstr (b'"' ∷ s) (b'"' ∷ p)
  version :
      (s : Bytes) → strstr (lit "\"version\":\"" ++ s) (b'"' ∷ p) ≡ strstr (b'"' ∷ s) (b'"' ∷ p)
  socket : (s : Bytes) → strstr (lit "\"socket\":\"" ++ s) (b'"' ∷ p) ≡ strstr (b'"' ∷ s) (b'"' ∷ p)
  capabilities :
      (s : Bytes) → strstr (lit "\"capabilities\":[" ++ s) (b'"' ∷ p) ≡ strstr s (b'"' ∷ p)
  comma :
      (n : ℕ) (v s : Bytes)
      → IsText n v
      → strstr (b'"' ∷ (v ++ b'"' ∷ b',' ∷ s)) (b'"' ∷ p) ≡ strstr s (b'"' ∷ p)
  bracket :
      (n : ℕ) (v s : Bytes)
      → IsText n v
      → strstr (b'"' ∷ (v ++ b'"' ∷ b']' ∷ s)) (b'"' ∷ p) ≡ strstr s (b'"' ∷ p)

Absent-type :
    (w : Bytes)
    → ((s : Bytes) → has_prefix (w ++ b'"' ∷ []) (lit "register\",\"name\":\"" ++ s) ≡ false)
    → Absent (lit "type\":\"" ++ (w ++ b'"' ∷ []))
unfolding strstr has_prefix
Absent-type w f = record {
  front = λ s. rw (f s) refl;
  version = λ s. refl;
  socket = λ s. refl;
  capabilities = λ s. refl;
  comma = λ n v s t.
      strstr_member (lit "type") v (b'"' ∷ (w ++ b'"' ∷ [])) s b',' b':'
        (NoQuote-is_quote_free (lit "type") refl) t.free refl;
  bracket = λ n v s t.
      strstr_member (lit "type") v (b'"' ∷ (w ++ b'"' ∷ [])) s b']' b':'
        (NoQuote-is_quote_free (lit "type") refl) t.free refl;
}

Absent-query : Absent (lit "query\"")
unfolding strstr has_prefix
Absent-query = record {
  front = λ s. refl;
  version = λ s. refl;
  socket = λ s. refl;
  capabilities = λ s. refl;
  comma = λ n v s t.
      strstr_value (lit "query") v (b',' ∷ s) (NoQuote-is_quote_free (lit "query") refl) t.free
        t.not_query;
  bracket = λ n v s t.
      strstr_value (lit "query") v (b']' ∷ s) (NoQuote-is_quote_free (lit "query") refl) t.free
        t.not_query;
}

strstr-quoted :
    (p : Bytes)
    → Absent p
    → (cs : List Bytes) → All (IsText 63) cs
    → strstr (quoted cs ++ lit "]}") (b'"' ∷ p) ≡ none
unfolding quoted strstr has_prefix
strstr-quoted p a [] h = refl
strstr-quoted p a (c ∷ []) (h, _) =
    ap (λ t. strstr (b'"' ∷ t) (b'"' ∷ p)) (append_assoc c (b'"' ∷ []) (lit "]}"))
    ∙ a.bracket 63 c (lit "}") h
strstr-quoted p a (c ∷ d ∷ cs) (h, hs) =
    ap (λ t. strstr (b'"' ∷ t) (b'"' ∷ p))
      (append_assoc c (b'"' ∷ b',' ∷ quoted (d ∷ cs)) (lit "]}"))
    ∙ (a.comma 63 c (quoted (d ∷ cs) ++ lit "]}") h ∙ strstr-quoted p a (d ∷ cs) hs)

span_not-quoted :
    (n : ℕ) (v s : Bytes)
    → NoQuote v
    → length v ≤ n
    → span_not b'"' n (v ++ b'"' ∷ s) ≡ (v, b'"' ∷ s)
unfolding span_not
span_not-quoted zero [] s h l = refl
span_not-quoted zero (c ∷ v) s h l = absurd (omega arith)
span_not-quoted (suc n) [] s h l = refl
span_not-quoted (suc n) (c ∷ v) s h l = ground (arith, span_not-quoted n v s h.1 (omega arith))

capability_items-end : (n : ℕ) → capability_items n (lit "]}") ≡ []
unfolding capability_items
capability_items-end zero = refl
capability_items-end (suc n) = refl

capability_items-quoted :
    (n : ℕ) (cs : List Bytes)
    → All (IsText 63) cs
    → length cs ≤ n
    → capability_items n (quoted cs ++ lit "]}") ≡ cs
unfolding quoted capability_items next_item strchr
capability_items-quoted zero [] h l = refl
capability_items-quoted (suc n) [] h l = refl
capability_items-quoted zero (c ∷ cs) h l = absurd (omega arith)
capability_items-quoted (suc n) (c ∷ []) (h, _) l =
    rw (append_assoc c (b'"' ∷ []) (lit "]}"), span_not-quoted 63 c (lit "]}") h.free h.short)
      (ap (λ t. c ∷ t) (capability_items-end n))
capability_items-quoted (suc n) (c ∷ d ∷ cs) (h, hs) l =
    rw
      (
        append_assoc c (b'"' ∷ b',' ∷ quoted (d ∷ cs)) (lit "]}"),
        span_not-quoted 63 c (b',' ∷ (quoted (d ∷ cs) ++ lit "]}")) h.free h.short,
      )
      (ap (λ t. c ∷ t) (capability_items-quoted n (d ∷ cs) hs (omega arith)))

handler-parsed :
    (w : World) (now : ℕ) (reg : Registry) (raw : Bytes)
    → protocol_parse raw ≡ some (register, no_request)
    → (on_request_handler w now reg raw).registry ≡ (on_register now reg (parse_agent now raw)).0
unfolding on_request_handler
handler-parsed w now reg raw e = rw (e, on_request_handler) refl

on_register-named :
    (now : ℕ) (reg : Registry) (agent : AgentInfo)
    → 1 ≤ length agent.name
    → (on_register now reg agent).0 ≡ (registry_register now reg agent).0
unfolding on_register
on_register-named now reg agent h = ground arith

module _ (id : Identity) (v : IsIdentity id) where
  abbrev after_socket : Bytes
  after_socket = b'"' ∷ (lit ",\"capabilities\":[" ++ (quoted id.capabilities ++ lit "]}"))

  abbrev after_version : Bytes
  after_version = b'"' ∷ (lit ",\"socket\":\"" ++ (id.socket ++ after_socket))

  abbrev after_name : Bytes
  after_name = b'"' ∷ (lit ",\"version\":\"" ++ (id.version ++ after_version))

  member-name : member (register_text id) (lit "name") 63 ≡ some id.name
  unfolding register_text member strstr has_prefix strchr
  member-name =
      ap some (span_not-value 63 id.name (drop 1 after_name) v.name_text.free v.name_text.short)

  strstr-version :
      strstr (register_text id) (lit "\"version\"")
      ≡ some (lit "\"version\":\"" ++ (id.version ++ after_version))
  unfolding register_text strstr has_prefix
  strstr-version =
      strstr_value (lit "version") id.name (drop 1 after_name)
        (NoQuote-is_quote_free (lit "version") refl) v.name_text.free v.name_text.not_version

  strstr-socket :
      strstr (register_text id) (lit "\"socket\"")
      ≡ some (lit "\"socket\":\"" ++ (id.socket ++ after_socket))
  unfolding register_text strstr has_prefix
  strstr-socket =
      let key = NoQuote-is_quote_free (lit "socket") refl in
      strstr_value (lit "socket") id.name (drop 1 after_name) key v.name_text.free
        v.name_text.not_socket
      ∙ strstr_value (lit "socket") id.version (drop 1 after_version) key v.version_text.free
          v.version_text.not_socket

  strstr-capabilities :
      strstr (register_text id) (lit "\"capabilities\"")
      ≡ some (lit "\"capabilities\":[" ++ (quoted id.capabilities ++ lit "]}"))
  unfolding register_text strstr has_prefix
  strstr-capabilities =
      let key = NoQuote-is_quote_free (lit "capabilities") refl in
      strstr_value (lit "capabilities") id.name (drop 1 after_name) key v.name_text.free
        v.name_text.not_capabilities
      ∙ (strstr_value (lit "capabilities") id.version (drop 1 after_version) key v.version_text.free
            v.version_text.not_capabilities
          ∙ strstr_value (lit "capabilities") id.socket (drop 1 after_socket) key v.socket_text.free
              v.socket_text.not_capabilities)

  member-version : member (register_text id) (lit "version") 15 ≡ some id.version
  unfolding member strchr
  member-version =
      rw (strstr-version, ◌>>=◌)
        (ap some (
          span_not-value 15 id.version (drop 1 after_version) v.version_text.free
            v.version_text.short))

  member-socket : member (register_text id) (lit "socket") 255 ≡ some id.socket
  unfolding member strchr
  member-socket =
      rw (strstr-socket, ◌>>=◌)
        (ap some (
          span_not-value 255 id.socket (drop 1 after_socket) v.socket_text.free
            v.socket_text.short))

  socket_member-register : socket_member (register_text id) ≡ id.socket
  unfolding socket_member or_empty
  socket_member-register = rw (strstr-socket, socket_member) (ap or_empty member-socket)

  strstr-Absent : (p : Bytes) → Absent p → strstr (register_text id) (b'"' ∷ p) ≡ none
  unfolding register_text
  strstr-Absent p a =
      a.front (id.name ++ after_name)
      ∙ (a.comma 63 id.name _ v.name_text
          ∙ (a.version (id.version ++ after_version)
              ∙ (a.comma 15 id.version _ v.version_text
                  ∙ (a.socket (id.socket ++ after_socket)
                      ∙ (a.comma 255 id.socket _ v.socket_text
                          ∙ (a.capabilities (quoted id.capabilities ++ lit "]}")
                              ∙ strstr-quoted p a id.capabilities v.capability_texts))))))

  capabilities-register :
      elim (do p ← strstr (register_text id) (lit "\"capabilities\""); strchr p b'[') [
        | none ↦ []
        | some q ↦ capability_items 32 (drop 1 q)
      ]
      ≡ id.capabilities
  unfolding strchr
  capabilities-register =
      rw (strstr-capabilities)
        (capability_items-quoted 32 id.capabilities v.capability_texts v.capability_count)

  parse_agent-register : (now : ℕ) → parse_agent now (register_text id) ≡ agent_of now id
  unfolding parse_agent or_empty
  parse_agent-register now =
      rw (member-name, member-version, socket_member-register, capabilities-register) refl

  contains-register : contains (register_text id) (lit "\"type\":\"register\"") ≡ true
  unfolding register_text strstr has_prefix is_some
  contains-register = refl

  protocol_parse-register : protocol_parse (register_text id) ≡ some (register, no_request)
  unfolding protocol_parse
  protocol_parse-register =
      let type_is : Bytes → Bytes = λ w. lit "type\":\"" ++ (w ++ b'"' ∷ []) in
      rw
        (
          strstr-Absent (type_is (lit "ping")) (Absent-type (lit "ping") (λ s. refl)),
          strstr-Absent (type_is (lit "request")) (Absent-type (lit "request") (λ s. refl)),
          strstr-Absent (lit "query\"") Absent-query,
          contains-register,
        )
        refl

  -- The orchestrator registers an agent that sends its registration: its name, version, socket and all
  -- its capabilities arrive as they are, in place of those of an agent of that name or as a new agent
  -- (which a full registry turns away), if
  -- the texts hold no quote, are none of the keys that the orchestrator looks for and fit its fields, and
  -- the message fits the agent's buffer.
  pub on_request_handler-register :
      (w : World) (now : ℕ) (reg : Registry)
      → (on_request_handler w now reg (register_message id)).registry
        ≡ (registry_register now reg (agent_of now id)).0
  unfolding register_message
  on_request_handler-register w now reg =
      ap (λ raw. (on_request_handler w now reg raw).registry)
        (take-all 4095 (register_text id) v.fits)
      ∙ (handler-parsed w now reg (register_text id) protocol_parse-register
          ∙ (ap (λ a. (on_register now reg a).0) (parse_agent-register now)
              ∙ on_register-named now reg (agent_of now id) v.name_ne_nil))
