-- ===== src/Placement/Reply.antt =====
-- src/ambix_hyb-mod.c: `placement_nl_process_msg`, which cuts the entries into messages. The array is
-- read by whole entries: that the last of 131072 entries ends one byte behind it is not recorded.
use ambix.Base.{
  ℕ, zero, suc, ◌+◌, ◌-◌, ◌*◌, ◌/◌, ◌%◌, Bool, Option, List, [], ◌∷◌, ◌==◌, if◌then◌else◌, slice,
}
use ambix.Config.{AddrInfo, Req, max_n_per_packet}
use ambix.Kernel.{Kernel, Processes}
use ambix.Placement.State.{State}
use ambix.Placement.Request.{process_req}
use ambix.Netlink.{Message, part, done}

-- The number of entries in the last message.
unfoldable pub last_packet_entries : ℕ → ℕ
last_packet_entries n_found =
    let last_packet_remainder = n_found % max_n_per_packet in
    if last_packet_remainder == 0 then max_n_per_packet else last_packet_remainder

unfoldable pub required_packets : ℕ → ℕ
required_packets n_found =
    n_found / max_n_per_packet + (if n_found % max_n_per_packet == 0 then 0 else 1)

-- The loop over all but the last message, from message `i` on, and then the last message.
unfoldable pub put_messages : (ℕ → AddrInfo) → ℕ → ℕ → ℕ → List Message
put_messages found_addrs last zero i = done (slice found_addrs (i * max_n_per_packet) last) ∷ []
put_messages found_addrs last (suc rounds) i =
    part (slice found_addrs (i * max_n_per_packet) max_n_per_packet)
    ∷ put_messages found_addrs last rounds (i + 1)

unfoldable pub messages : (ℕ → AddrInfo) → ℕ → List Message
messages found_addrs n_found =
    put_messages found_addrs (last_packet_entries n_found) (required_packets n_found - 1) 0

-- Handles a message: the new state, and the messages sent back. `allocated` says whether `nlmsg_new`
-- returned a buffer; without one nothing is sent.
unfoldable pub placement_nl_process_msg :
    (k : Kernel) → Processes → Bool → Option Req → State k.Space → List Message × State k.Space
placement_nl_process_msg k ps allocated req s =
    let s' = process_req k ps req s in
    (if allocated then messages s'.found_addrs s'.n_found else [], s')
