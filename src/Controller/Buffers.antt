-- ===== src/Controller/Buffers.antt =====
-- What the module answers fits the controller's buffers: `buffer`, which has room for MAX_PACKETS
-- messages of MAX_PAYLOAD bytes, `candidates`, and `op_retval` of `send_bind` and `send_unbind`.
use ambix.Base.{
  ℕ, zero, suc, ◌+◌, ◌-◌, ◌*◌, ◌≤◌, ◌≡◌, refl, some, true, ℤ, List, [], ◌∷◌, length, length-slice,
  arith, ltb, ◌==◌,
}
use ambix.Config.{
  AddrInfo, Req, max_n_find, max_n_per_packet, max_packets, max_payload, sizeof_addr_info,
}
use ambix.Netlink.{Message, part, done, error}
use ambix.Kernel.{Kernel, Processes, Task}
use ambix.Placement.State.{State}
use ambix.Placement.Request.{process_req, dispatch, put_result}
use ambix.Placement.Request.Bounds.{Valid, Answerable, process_req-Valid}
use ambix.Placement.Reply.{
  last_packet_entries, required_packets, put_messages, messages, placement_nl_process_msg,
}
use ambix.Controller.Comm.{bind_req, unbind_req}

-- `malloc(sizeof(addr_info_t) * MAX_N_FIND)`, with the macro put in as text
abbrev pub candidates_bytes : ℕ
candidates_bytes = sizeof_addr_info * max_n_per_packet * max_packets - 1

abbrev payload : Message → List AddrInfo
payload (part es) = es
payload (done es) = es
payload error = []

-- The entries that the controller stores of an answer.
abbrev pub entries_of : List Message → ℕ
entries_of [] = 0
entries_of (m ∷ ms) = length (payload m) + entries_of ms

-- Each message has a payload of at most MAX_PAYLOAD bytes.
abbrev pub IsCut : List Message → Type 0
IsCut [] = Unit {0}
IsCut (m ∷ ms) = (sizeof_addr_info * length (payload m) ≤ max_payload) × IsCut ms

module _ (f : ℕ → AddrInfo) where
  put_messages-IsCut :
      (last rounds i : ℕ)
      → last ≤ max_n_per_packet
      → IsCut (put_messages f last rounds i)
        × (length (put_messages f last rounds i) ≡ rounds + 1)
        × (entries_of (put_messages f last rounds i) ≡ rounds * max_n_per_packet + last)
  unfolding put_messages
  put_messages-IsCut last zero i h =
      let l = length-slice f (i * max_n_per_packet) last in
      ((omega (arith, l), _), refl, omega (arith, l))
  put_messages-IsCut last (suc rounds) i h =
      let l = length-slice f (i * max_n_per_packet) max_n_per_packet in
      let ih = put_messages-IsCut last rounds (i + 1) h in
      ((omega (arith, l), ih.0), omega (arith, ih.1), omega (arith, l, ih.2))

  messages-IsCut :
      (n : ℕ)
      → 1 ≤ n
      → n ≤ max_n_find + 1
      → IsCut (messages f n)
        × (length (messages f n) ≤ max_packets)
        × (entries_of (messages f n) ≡ n)
  unfolding messages required_packets last_packet_entries
  messages-IsCut n h l =
      let p =
        put_messages-IsCut (last_packet_entries n) (required_packets n - 1) 0 (ground arith) in
      (p.0, ground arith, ground arith)

module _ (k : Kernel) (ps : Processes) (s : State k.Space) where
  abbrev pub answer : Req → List Message
  answer req = (placement_nl_process_msg k ps true (some req) s).0

  -- The answer to an answerable request, in a valid state of the module: it has at most MAX_PACKETS
  -- messages, each of at most MAX_PAYLOAD bytes, so that it fits `buffer`. It fits `candidates` too,
  -- unless it has MAX_N_FIND + 1 entries.
  pub answer-IsCut :
      (req : Req)
      → ((pid : ℤ) (t : Task) → ps.get_pid_task pid ≡ some t → t.pid ≡ pid)
      → Valid k s
      → Answerable k ps (some req) s
      → IsCut (answer req)
        × (length (answer req) ≤ max_packets)
        × (ltb candidates_bytes (sizeof_addr_info * entries_of (answer req))
            ≡ (entries_of (answer req) == max_n_find + 1))
  unfolding placement_nl_process_msg
  answer-IsCut req lookup v a =
      let s' = process_req k ps (some req) s in
      let (valid, least, most) = process_req-Valid k ps (some req) s lookup v a in
      let (cut, few, exact) = messages-IsCut s'.found_addrs s'.n_found least most in
      (cut, few, ground (arith, exact))

  one_entry :
      (req : Req) → (process_req k ps (some req) s).n_found ≡ 1 → entries_of (answer req) ≡ 1
  unfolding placement_nl_process_msg
  one_entry req e =
      let s' = process_req k ps (some req) s in
      let (cut, few, exact) =
        messages-IsCut s'.found_addrs s'.n_found (omega arith) (omega arith) in
      omega (arith, exact)

  -- The answer to a BIND or an UNBIND is one entry, which fits the `op_retval` of `send_bind` and
  -- `send_unbind`.
  pub bind-entries :
      (pid mode : ℤ)
      → (entries_of (answer (bind_req pid mode)) ≡ 1)
        × (entries_of (answer (unbind_req pid mode)) ≡ 1)
  unfolding process_req put_result dispatch
  bind-entries pid mode = (one_entry (bind_req pid mode) refl, one_entry (unbind_req pid mode) refl)
