-- ===== src/Controller/RoundTrip.antt =====
-- The entries that the module sends are the entries that the controller stores.
use ambix.Base.{
  ℕ, zero, suc, ◌+◌, ◌-◌, ◌*◌, ◌≤◌, ◌≡◌, refl, ◌∙◌, some, true, ◌&&◌, leb, ltb, if◌then◌else◌,
  update, slice, arith,
}
use ambix.Config.{AddrInfo, Req, max_n_per_packet}
use ambix.Kernel.{Kernel, Processes}
use ambix.Placement.State.{State}
use ambix.Placement.Reply.{
  last_packet_entries, required_packets, put_messages, messages, placement_nl_process_msg,
}
use ambix.Placement.Request.{process_req}
use ambix.Controller.Comm.{copy_payload, read_messages, send_req}

-- `out` with the entries of `f` from index `a` up to `b`.
abbrev pub overlay : (ℕ → AddrInfo) → ℕ → ℕ → (ℕ → AddrInfo) → ℕ → AddrInfo
overlay f a b out j = if leb a j && ltb j b then f j else out j

module _ (f : ℕ → AddrInfo) where
  copy_payload-slice :
      (c s : ℕ) (out : ℕ → AddrInfo) (j : ℕ)
      → copy_payload (slice f s c) s out j ≡ overlay f s (s + c) out j
  unfolding copy_payload
  copy_payload-slice zero s out j = ground arith
  copy_payload-slice (suc c) s out j =
      ground (arith, copy_payload-slice c (s + 1) (update out s (f s)) j)

  -- Two payloads in a row.
  overlay-step :
      (last rounds at : ℕ) (out : ℕ → AddrInfo) (j : ℕ)
      → overlay f
          (at + max_n_per_packet)
          (at + max_n_per_packet + rounds * max_n_per_packet + last)
          (copy_payload (slice f at max_n_per_packet) at out)
          j
        ≡ overlay f at (at + suc rounds * max_n_per_packet + last) out j
  overlay-step last rounds at out j =
      let first = copy_payload-slice max_n_per_packet at out j in ground arith

  read-put_messages :
      (last rounds i at : ℕ) (out : ℕ → AddrInfo)
      → at ≡ i * max_n_per_packet
      → ((read_messages (put_messages f last rounds i) at out).0 ≡ true)
        × ((j : ℕ)
            → (read_messages (put_messages f last rounds i) at out).1 j
              ≡ overlay f at (at + rounds * max_n_per_packet + last) out j)
  unfolding read_messages put_messages
  read-put_messages last zero i at out e =
      (refl, λ j. ground (arith, copy_payload-slice last at out j))
  read-put_messages last (suc rounds) i at out e =
      let next = copy_payload (slice f at max_n_per_packet) at out in
      let ih = read-put_messages last rounds (i + 1) (at + max_n_per_packet) next (omega arith) in
      rw (← e) (ih.0, λ j. ih.1 j ∙ overlay-step last rounds at out j)

-- The last message ends where the entries end.
messages-cover :
    (n : ℕ) → 1 ≤ n → (required_packets n - 1) * max_n_per_packet + last_packet_entries n ≡ n
unfolding required_packets last_packet_entries
messages-cover n h = ground arith

-- Each entry that the module sends arrives at its index, and what lies behind them is unchanged.
pub read-messages :
    (f : ℕ → AddrInfo) (n : ℕ) (out : ℕ → AddrInfo)
    → 1 ≤ n
    → ((read_messages (messages f n) 0 out).0 ≡ true)
      × ((j : ℕ) → (read_messages (messages f n) 0 out).1 j ≡ (if ltb j n then f j else out j))
unfolding messages
read-messages f n out h =
    let all = read-put_messages f (last_packet_entries n) (required_packets n - 1) 0 0 out refl in
    let cover = messages-cover n h in (all.0, λ j. all.1 j ∙ ground arith)

-- Where the module's handler leaves at least one entry, the controller stores what the handler leaves
-- in `found_addrs`, entry by entry, and what
-- lies behind the `n_found` entries is unchanged.
pub send_req-process_msg :
    (k : Kernel) (ps : Processes) (s : State k.Space) (req : Req) (out : ℕ → AddrInfo)
    → 1 ≤ (process_req k ps (some req) s).n_found
    → let answer = λ (r : Req). (placement_nl_process_msg k ps true (some r) s).0 in
      let s' = (placement_nl_process_msg k ps true (some req) s).1 in
      ((send_req answer req out).0 ≡ true)
      × ((j : ℕ)
          → (send_req answer req out).1 j ≡ (if ltb j s'.n_found then s'.found_addrs j else out j))
unfolding placement_nl_process_msg send_req
send_req-process_msg k ps s req out h =
    let s' = process_req k ps (some req) s in read-messages s'.found_addrs s'.n_found out h
