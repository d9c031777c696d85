-- ===== src/Controller/Comm.antt =====
-- src/ambix_hyb-ctl.c: `send_req`, `send_bind` and `send_unbind`. What the module answers to a request
-- is an argument of each function: the messages that `recvmsg` puts into the buffer.
use ambix.Base.{
  ℕ, zero, suc, ◌+◌, Bool, true, false, Option, none, some, List, [], ◌∷◌, ℤ, pos, ◌==ℤ◌, ltb_ℤ,
  if◌then◌else◌, update, length,
}
use ambix.Config.{AddrInfo, Req, bind_op, unbind_op}
use ambix.Netlink.{Message, part, done, error}

-- `memcpy(curr_pointer, payload, payload_len)`, entry by entry.
unfoldable pub copy_payload : List AddrInfo → ℕ → (ℕ → AddrInfo) → ℕ → AddrInfo
copy_payload [] at out = out
copy_payload (e ∷ es) at out = copy_payload es (at + 1) (update out at e)

-- The loop over the received messages. The result is the value of `send_req` and the array `out`.
unfoldable pub read_messages : List Message → ℕ → (ℕ → AddrInfo) → Bool × (ℕ → AddrInfo)
read_messages [] at out = (true, out)
read_messages (part es ∷ ms) at out = read_messages ms (at + length es) (copy_payload es at out)
read_messages (done es ∷ ms) at out = read_messages ms (at + length es) (copy_payload es at out)
read_messages (error ∷ ms) at out = (false, out)

unfoldable pub send_req : (Req → List Message) → Req → (ℕ → AddrInfo) → Bool × (ℕ → AddrInfo)
send_req answer req out = read_messages (answer req) 0 out

-- The requests of `send_bind` and `send_unbind`; they leave `mode` as it happens to be.
abbrev pub bind_req : ℤ → ℤ → Req
bind_req pid mode = record { op_code = bind_op; pid_n = pid; mode = mode }

abbrev pub unbind_req : ℤ → ℤ → Req
unbind_req pid mode = record { op_code = unbind_op; pid_n = pid; mode = mode }

-- `op_retval` is a fresh array, with what memory holds.
unfoldable pub send_bind : (Req → List Message) → ℤ → ℤ → (ℕ → AddrInfo) → Bool
send_bind answer mode pid op_retval =
    let r = send_req answer (bind_req pid mode) op_retval in (r.1 0).pid_retval ==ℤ pos 0

unfoldable pub send_unbind : (Req → List Message) → ℤ → ℤ → (ℕ → AddrInfo) → Bool
send_unbind answer mode pid op_retval =
    let r = send_req answer (unbind_req pid mode) op_retval in (r.1 0).pid_retval ==ℤ pos 0

-- `while (candidates[++n_found].pid_retval > 0);` from index `i` on, with fuel.
unfoldable pub count_candidates : ℕ → ℕ → (ℕ → AddrInfo) → Option ℕ
count_candidates zero i candidates = none
count_candidates (suc fuel) i candidates =
    let rest = count_candidates fuel (i + 1) candidates in
    if ltb_ℤ (pos 0) (candidates i).pid_retval then rest else some i
