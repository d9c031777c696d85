-- ===== src/ClockDwf/Answers.antt =====
-- What the module of clockdwf-mod.c answers to a request, and what arrives at the controller.
use ambix.Base.{
  ℕ, zero, suc, ◌+◌, ◌-◌, ◌*◌, ◌≤◌, ◌≡◌, refl, true, false, some, ℤ, pos, pos_part, leb_ℤ, ltb,
  ◌==ℤ◌, ◌==◌, arith, Bool-cases, inl, inr,
}
use ambix.Config.{AddrInfo, Req, max_n_per_packet}
use ambix.Kernel.{Kernel}
use ambix.Placement.State.{Pids}
use ambix.Placement.Reply.{last_packet_entries, required_packets, put_messages, messages}
use ambix.ClockDwf.{Constants, pte_callback_perfect_nvram}
use ambix.ClockDwf.Walk.{
  State, start_walk, walk_nvram, walk_dram, result_of, force_walk, dram_walk, nvram_walk,
  put_separator, rebalance, switch_walk,
}
use ambix.ClockDwf.Counts.{
  walk_dram-Counted, walk_nvram-Counted, perfect_nvram-KeepsCount, clock_walks-IsAnswer,
}
use ambix.ClockDwf.Stale.{reconstruct-n_found}
use ambix.ClockDwf.Request.{
  Codes, TaskList, bind_pid, unbind_pid, put_packets, find_pages, dispatch, put_result, process_req,
}

module _ (codes : Codes) (same : codes.max_n_per_packet ≡ max_n_per_packet) where
  put_packets_from :
      (f : ℕ → AddrInfo) (n last rounds fuel i : ℕ)
      → (i + rounds) * max_n_per_packet + last ≡ n
      → 1 ≤ last
      → last ≤ max_n_per_packet
      → rounds ≤ fuel
      → put_packets codes f n fuel i ≡ put_messages f last rounds i
  unfolding put_packets put_messages
  put_packets_from f n last zero zero i e low high enough =
      let m : n - i * max_n_per_packet ≡ last = omega (arith, e) in rw (same, m) refl
  put_packets_from f n last zero (suc fuel) i e low high enough =
      let m : n - i * max_n_per_packet ≡ last = omega (arith, e) in
      let stop : ltb (i * max_n_per_packet + max_n_per_packet) n ≡ false = ground (arith, e) in
      rw (same, stop, m) refl
  put_packets_from f n last (suc rounds) zero i e low high enough = absurd (omega (arith, enough))
  put_packets_from f n last (suc rounds) (suc fuel) i e low high enough =
      let more : ltb (i * max_n_per_packet + max_n_per_packet) n ≡ true = ground (arith, e) in
      let rest =
        put_packets_from f n last rounds fuel (i + 1) (omega (arith, e)) low high
          (omega (arith, enough)) in
      rw (same, more, rest) refl

  -- With as many entries in a packet as in Ambix, the entries are cut into the messages that the
  -- module of Ambix sends.
  pub put_packets_lem :
      (f : ℕ → AddrInfo) (n : ℕ) → 1 ≤ n → put_packets codes f n n 0 ≡ messages f n
  unfolding messages last_packet_entries required_packets
  put_packets_lem f n h =
      put_packets_from f n (last_packet_entries n) (required_packets n - 1) n 0 (ground arith)
        (ground arith) (ground arith) (ground arith)

module _ (k : Kernel) (constants : Constants) (n : ℤ) where
  -- A result of 0 or -1, with at most `2 * n + 1` entries, which a walk for both tiers needs.
  abbrev pub IsBounded : ℤ × State k constants → Type 0
  IsBounded r = (leb_ℤ r.0 (pos 0) ≡ true) × (r.1.n_found ≤ 2 * pos_part n + 1)

  result_of-zero : (s : State k constants) → leb_ℤ (result_of k constants s).0 (pos 0) ≡ true
  result_of-zero s = ground arith

  dram_walk-IsBounded :
      (s : State k constants) → s.n_found ≡ 0 → IsBounded (dram_walk k constants n s)
  dram_walk-IsBounded s empty =
      let all = (clock_walks-IsAnswer k constants n s empty).0 in
      (
        unfold dram_walk in result_of-zero (walk_dram k constants (start_walk k constants n s)),
        omega (arith, all.0),
      )

  force_walk-zero : (s : State k constants) → leb_ℤ (force_walk k constants s).0 (pos 0) ≡ true
  unfolding force_walk
  force_walk-zero s = ground arith

  nvram_walk-IsBounded :
      (s : State k constants) → s.n_found ≡ 0 → IsBounded (nvram_walk k constants n s)
  nvram_walk-IsBounded s empty =
      let all = (clock_walks-IsAnswer k constants n s empty).1 in
      (
        unfold nvram_walk in
            force_walk-zero (
              walk_nvram k constants (pte_callback_perfect_nvram k constants)
                (start_walk k constants n s)),
        omega (arith, all.0),
      )

  rebalance-IsBounded :
      (nvram : ℕ) (s : State k constants)
      → nvram ≤ pos_part n
      → s.n_found ≤ nvram * 2 + 1
      → IsBounded (rebalance k constants nvram s)
  unfolding rebalance
  rebalance-IsBounded nvram s few all =
      let dram_found : ℕ = s.n_found - nvram - 1 in
      let count = reconstruct-n_found k constants nvram dram_found s in
      elim (Bool-cases (dram_found == nvram)) [
        | inl even ↦ rw even (refl, omega (arith, few, all))
        | inr odd ↦ rw odd (refl, omega (arith, few, all, count))
      ]

  switch_walk-IsBounded :
      (s : State k constants) → s.n_found ≡ 0 → IsBounded (switch_walk k constants n s)
  unfolding switch_walk
  switch_walk-IsBounded s empty =
      let start = start_walk k constants n s in
      let s' = walk_nvram k constants (pte_callback_perfect_nvram k constants) start in
      let c =
        walk_nvram-Counted k constants n (pte_callback_perfect_nvram k constants)
          (perfect_nvram-KeepsCount k constants n) start (refl, omega (arith, empty)) in
      let second : State k constants = record (put_separator k constants s'.n_found s') {
        n_to_find = pos (s'.n_found * 2 + 1);
        n_found = s'.n_found + 1;
        found_last = false;
      } in
      let d = walk_dram-Counted k constants (pos (s'.n_found * 2 + 1)) second (refl, omega arith) in
      rebalance-IsBounded s'.n_found (walk_dram k constants second) c.1 d.1

module _ (codes : Codes) (k : Kernel) (constants : Constants) where
  find_pages-IsBounded :
      (req : Req) (s : State k constants)
      → s.n_found ≡ 0
      → IsBounded k constants req.pid_n (find_pages codes k constants req s)
  unfolding find_pages
  find_pages-IsBounded req s empty = elim (Bool-cases (req.mode ==ℤ codes.dram_mode)) [
    | inl dram ↦ rw dram (dram_walk-IsBounded k constants req.pid_n s empty)
    | inr ne₀ ↦ elim (Bool-cases (req.mode ==ℤ codes.nvram_mode)) [
      | inl nvram ↦ rw (ne₀, nvram) (nvram_walk-IsBounded k constants req.pid_n s empty)
      | inr ne₁ ↦ elim (Bool-cases (req.mode ==ℤ codes.switch_mode)) [
        | inl both ↦ rw (ne₀, ne₁, both) (switch_walk-IsBounded k constants req.pid_n s empty)
        | inr ne₂ ↦ rw (ne₀, ne₁, ne₂) (refl, omega (arith, empty))
      ]
    ]
  ]

  bind_pid-zero :
      (list : TaskList) (pid : ℤ) (p : Pids) → leb_ℤ (bind_pid codes list pid p).0 (pos 0) ≡ true
  unfolding bind_pid
  bind_pid-zero list pid p = ground arith

  unbind_pid-zero : (pid : ℤ) (p : Pids) → leb_ℤ (unbind_pid codes pid p).0 (pos 0) ≡ true
  unfolding unbind_pid
  unbind_pid-zero pid p = ground arith

  dispatch-IsBounded :
      (list : TaskList) (req : Req) (s : State k constants)
      → s.n_found ≡ 0
      → IsBounded k constants req.pid_n (dispatch codes k constants list req s)
  unfolding dispatch
  dispatch-IsBounded list req s empty = elim (Bool-cases (req.op_code ==ℤ codes.find_op)) [
    | inl finds ↦ rw finds (find_pages-IsBounded req s empty)
    | inr ne₀ ↦ elim (Bool-cases (req.op_code ==ℤ codes.bind_op)) [
      | inl binds ↦ rw (ne₀, binds) (bind_pid-zero list req.pid_n s.pids, omega (arith, empty))
      | inr ne₁ ↦ elim (Bool-cases (req.op_code ==ℤ codes.unbind_op)) [
        | inl unbinds ↦
            rw (ne₀, ne₁, unbinds) (unbind_pid-zero req.pid_n s.pids, omega (arith, empty))
        | inr ne₂ ↦ rw (ne₀, ne₁, ne₂) (refl, omega (arith, empty))
      ]
    ]
  ]

  -- Whatever the request and the state, the answer has an entry, at most `2 * pid_n + 2` of them, and
  -- the last one has no positive pid.
  pub process_req-answers :
      (list : TaskList) (req : Req) (s : State k constants)
      → let s' = process_req codes k constants list (some req) s in
        (1 ≤ s'.n_found)
        × (s'.n_found ≤ 2 * pos_part req.pid_n + 2)
        × (leb_ℤ (s'.found_addrs (s'.n_found - 1)).pid_retval (pos 0) ≡ true)
  unfolding process_req put_result
  process_req-answers list req s =
      let r = dispatch codes k constants list req (record s { n_found = 0 }) in
      let all = dispatch-IsBounded list req (record s { n_found = 0 }) refl in
      let z : r.1.n_found + 1 - 1 ≡ r.1.n_found = omega arith in
      (omega arith, omega (arith, all.1), rw z (ground (arith, all.0)))
