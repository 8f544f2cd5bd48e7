-- ===== src/Orchestrator/PolicyClient/Answer.antt =====
-- The policy engine's answer, as the client reads it.
use khazar_os.Common.{
  ℕ, ◌-◌, ◌<◌, ◌≡◌, refl, ap, ◌↔◌, true, false, [], ◌∷◌, ◌++◌, arith, leb, length, take,
  length-append,
}
use khazar_os.CString.{Bytes, lit, str_eq, strncpy, has_prefix, strstr, strchr}
use khazar_os.CString.Quoted.{NoQuote, NoQuote-is_quote_free, strchr_skip}
use khazar_os.PolicyEngine.Store.{
  PolicyAction, allow, deny, ask_user, PolicyResponse, policy_action_str,
}
use khazar_os.PolicyEngine.Protocol.{protocol_build_response}
use khazar_os.PolicyEngine.Engine.{in_response}
use khazar_os.Orchestrator.PolicyClient.{copy_quoted, read_verdict}

leb-false : (n m : ℕ) → m < n → leb n m ≡ false
leb-false n m h = ground arith

pub take-length-append : (v s : Bytes) → take (length v) (v ++ s) ≡ v
take-length-append [] s = refl
take-length-append (c ∷ v) s = ap (◌∷◌ c) (take-length-append v s)

pub copy_quoted-value :
    (v s : Bytes) (n : ℕ) → NoQuote v → length v < n → copy_quoted (v ++ b'"' ∷ s) n ≡ v
unfolding copy_quoted
copy_quoted-value v s n q l =
    let whole = length-append v (b'"' ∷ s) in
    let len : length (v ++ b'"' ∷ s) - length (b'"' ∷ s) ≡ length v = omega (arith, whole) in
    rw (strchr_skip v (b'"' ∷ s) q, copy_quoted)
      (unfold strchr in rw len (rw (leb-false n (length v) l) (take-length-append v (b'"' ∷ s))))

-- The action comes back as it was sent, whatever the reason and the rule's name hold.
allowed-response :
    (reason matched : Bytes) (action : PolicyAction) (n : ℕ)
    → (read_verdict
        (strncpy 4095 (
          in_response (
            protocol_build_response
              (record { id = 1; action = action; reason = reason; matched_rule = matched }))))
        n).allowed
      ≡ str_eq (policy_action_str action) (lit "allow")
unfolding protocol_build_response read_verdict strstr has_prefix policy_action_str
allowed-response reason matched allow n =
    ap (λ v. str_eq v (lit "allow"))
      (copy_quoted-value (lit "allow") _ 32 (NoQuote-is_quote_free (lit "allow") refl)
        (omega arith))
allowed-response reason matched deny n =
    ap (λ v. str_eq v (lit "allow"))
      (copy_quoted-value (lit "deny") _ 32 (NoQuote-is_quote_free (lit "deny") refl) (omega arith))
allowed-response reason matched ask_user n =
    ap (λ v. str_eq v (lit "allow"))
      (copy_quoted-value (lit "ask_user") _ 32 (NoQuote-is_quote_free (lit "ask_user") refl)
        (omega arith))

allow_iff : (a : PolicyAction) → (str_eq (policy_action_str a) (lit "allow") ≡ true) ↔ (a ≡ allow)
unfolding str_eq policy_action_str
allow_iff a = ground arith

pub verdict_iff :
    (resp : PolicyResponse) (n : ℕ)
    → resp.id ≡ 1
    → ((read_verdict (strncpy 4095 (in_response (protocol_build_response resp))) n).allowed ≡ true)
      ↔ (resp.action ≡ allow)
verdict_iff resp n e =
    let r = record resp { id = 1 } in
    let same : resp ≡ r = ground arith in
    rw same
      (rw (allowed-response resp.reason resp.matched_rule resp.action n) (allow_iff resp.action))
