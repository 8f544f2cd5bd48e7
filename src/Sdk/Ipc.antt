-- ===== src/Sdk/Ipc.antt =====
-- Sending on a connection: `ipc_client_send` of khazar/sdk/ipc/ipc.c. What the calls of `write` return, one
-- after the other, is an argument.
pub mod Whole
use khazar_os.Common.{
  ℕ, zero, suc, ◌+◌, ◌-◌, ◌*◌, ◌/◌, ◌%◌, ◌^◌, ◌≤◌, ◌<◌, ◌≡◌, refl, sym, ap, ◌∙◌, ◌≢◌, ◌↔◌, ◌⊎◌, inl,
  inr, Bool, true, false, not, ◌&&◌, ◌||◌, Option, none, some, List, [], ◌∷◌, ◌++◌, map, arith, leb,
  ltb, ◌==◌, if◌then◌else◌, length, take, drop, get_or, get_elem?, set, ℤ, pos, negsuc, ltb_ℤ,
  pos_part, neg_part, sub_ℕ, ◌+ℤ◌, ◌≤ℤ◌, ◌<ℤ◌, ◌>>=◌, Bool-cases, Option-cases, length-append,
  length-set, replicate, ltb→lt, lt→ltb,
}
use khazar_os.CString.{
  Bytes, lit, str_eq, strncpy, has_prefix, strstr, is_some, contains, strchr, tolower, isspace,
  skip_spaces,
}
use khazar_os.Sdk.Agent.{IpcClient}

-- A number of bytes, EAGAIN or EWOULDBLOCK, or another error.
pub data Written : Type 0 where
  wrote : ℕ → Written
  again failed : Written

-- The bytes of one call before those of the later ones.
unfoldable pub before : Bytes → Option (Bytes × Bool) → Option (Bytes × Bool)
before sent none = none
before sent (some (more, ok)) = some (sent ++ more, ok)

-- The loop with what is left to send: the bytes sent, and whether the call returns 0; `none` while the
-- loop still waits for a result.
unfoldable pub send_rest : List Written → Bytes → Option (Bytes × Bool)
unfolding before
send_rest results [] = some ([], true)
send_rest [] (c ∷ s) = none
send_rest (again ∷ results) (c ∷ s) = send_rest results (c ∷ s)
send_rest (failed ∷ results) (c ∷ s) = some ([], false)
send_rest (wrote n ∷ results) (c ∷ s) = before (take n (c ∷ s)) (send_rest results (drop n (c ∷ s)))

unfoldable pub ipc_client_send : IpcClient → List Written → Bytes → Option (Bytes × Bool)
unfolding send_rest
ipc_client_send client results message =
    if client.has_fd then send_rest results message else some ([], false)
