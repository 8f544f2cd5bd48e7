-- ===== src/Sdk/Ipc/Whole.antt =====
-- A message that is sent in parts arrives whole (khazar/sdk/ipc/ipc.c).
use khazar_os.Common.{
  ℕ, zero, suc, ◌≤◌, ◌≡◌, refl, ap, ◌∙◌, Bool, true, Option, some, List, [], ◌∷◌, arith, length,
  take, drop,
}
use khazar_os.CString.{Bytes}
use khazar_os.Common.{take-append-drop}
use khazar_os.Sdk.Agent.{IpcClient}
use khazar_os.Sdk.Ipc.{Written, wrote, again, failed, before, send_rest, ipc_client_send}

-- How many of the results are of at least a byte, up to the first error.
abbrev pub progress : List Written → ℕ
progress [] = 0
progress (wrote zero ∷ results) = progress results
progress (wrote (suc n) ∷ results) = suc (progress results)
progress (again ∷ results) = progress results
progress (failed ∷ results) = 0

length-drop_le {ℓ} : {A : Type ℓ} (n : ℕ) (xs : List A) → length (drop n xs) ≤ length xs
length-drop_le zero xs = omega arith
length-drop_le (suc n) [] = omega arith
length-drop_le (suc n) (x ∷ xs) = omega (arith, length-drop_le n xs)

before-whole :
    (n : ℕ) (s : Bytes) (o : Option (Bytes × Bool))
    → o ≡ some (drop n s, true)
    → before (take n s) o ≡ some (s, true)
unfolding before
before-whole n s o e = ap (before (take n s)) e ∙ ap (λ t. some (t, true)) (take-append-drop n s)

send_rest-whole :
    (results : List Written) (s : Bytes)
    → length s ≤ progress results
    → send_rest results s ≡ some (s, true)
unfolding send_rest
send_rest-whole results [] h = refl
send_rest-whole [] (c ∷ s) h = absurd (omega (arith, h))
send_rest-whole (again ∷ results) (c ∷ s) h = send_rest-whole results (c ∷ s) h
send_rest-whole (failed ∷ results) (c ∷ s) h = absurd (omega (arith, h))
send_rest-whole (wrote zero ∷ results) (c ∷ s) h =
    before-whole 0 (c ∷ s) (send_rest results (c ∷ s)) (send_rest-whole results (c ∷ s) h)
send_rest-whole (wrote (suc n) ∷ results) (c ∷ s) h =
    before-whole (suc n) (c ∷ s) (send_rest results (drop n s))
      (send_rest-whole results (drop n s) (omega (arith, h, length-drop_le n s)))

-- `ipc_client_send` returns 0 and has sent exactly the message, in order, if the client has a descriptor and `write` takes at
-- least a byte as often as the message has bytes before it gives an error, however the message is cut into parts and
-- however often `write` asks to try again.
pub ipc_client_send-whole :
    (client : IpcClient) (results : List Written) (message : Bytes)
    → client.has_fd ≡ true
    → length message ≤ progress results
    → ipc_client_send client results message ≡ some (message, true)
unfolding ipc_client_send
ipc_client_send-whole client results message f h = rw f (send_rest-whole results message h)
