-- ===== src/ClockDwf/Finds.antt =====
-- `send_find` of clockdwf-ctl.c, answered by the module of clockdwf-mod.c.
use ambix.Base.{
  ℕ, zero, suc, ◌+◌, ◌-◌, ◌*◌, ◌≤◌, ◌<◌, ◌≡◌, ◌∙◌, ap, true, some, ℤ, pos, pos_part, leb_ℤ, ltb_ℤ,
  ltb, ◌==ℤ◌, if◌then◌else◌, List, arith, Bool-cases, ◌⊎◌, inl, inr,
}
use native.Mathlib.Decide.{ℕ_discrete}
use ambix.Config.{AddrInfo, Req, max_n_per_packet}
use ambix.Kernel.{Kernel}
use ambix.Netlink.{Message}
use ambix.Controller.Comm.{send_req, read_messages, count_candidates}
use ambix.Controller.Find.{count_candidates-stops}
use ambix.Controller.Migration.{Os}
use ambix.Controller.RoundTrip.{read-messages}
use ambix.ClockDwf.{Constants}
use ambix.ClockDwf.Walk.{State}
use ambix.ClockDwf.Request.{Codes, TaskList, process_req, placement_nl_process_msg}
use ambix.ClockDwf.Answers.{put_packets_lem, process_req-answers}
use ambix.ClockDwf.Migration.{Nodes, find_req, send_find}
use ambix.ClockDwf.Groups.{EndsAt}
use ambix.ClockDwf.Moves.{MoveLaws, move_each}
use ambix.ClockDwf.Migrated.{migrate_found-ends, migrate_found-each}

-- The candidates that are counted are pages of a process, and the next one is not.
count_candidates-ends :
    (candidates : ℕ → AddrInfo) (fuel i c : ℕ)
    → count_candidates fuel i candidates ≡ some c
    → ((m : ℕ) → i ≤ m → m < c → ltb_ℤ (pos 0) (candidates m).pid_retval ≡ true)
      × (leb_ℤ (candidates c).pid_retval (pos 0) ≡ true)
unfolding count_candidates
count_candidates-ends candidates zero i c e = ground (arith, e)
count_candidates-ends candidates (suc fuel) i c e =
    elim (Bool-cases (ltb_ℤ (pos 0) (candidates i).pid_retval)) [
      | inl more ↦
          let next = rw more at e in
          let r = count_candidates-ends candidates fuel (i + 1) c next in
          (
            λ m from to. elim (ℕ_discrete m i) [
              | yes e ↦ rw e more
              | no ne ↦ r.0 m (omega (arith, from, ne)) to
            ],
            r.1,
          )
      | inr stop ↦
          let here : some i ≡ some c = rw stop at e in
          let same : i ≡ c = cc here in
          (λ m from to. absurd (omega (arith, from, to, same)), rw (← same) (ground (arith, stop)))
    ]

module _ (k : Kernel) (constants : Constants) (codes : Codes)
    (same : codes.max_n_per_packet ≡ max_n_per_packet) (list : TaskList) (s : State k constants)
    (os : Os) (nodes : Nodes) where
  -- The module's answer to a request.
  abbrev pub answer : Req → List Message
  answer req = (placement_nl_process_msg codes k constants list true (some req) s).0

  -- What `send_req` stores for a FIND.
  abbrev pub stored : ℤ → ℤ → (ℕ → AddrInfo) → ℕ → AddrInfo
  stored n_pages mode candidates = (send_req answer (find_req codes n_pages mode) candidates).1

  stored_lem :
      (n_pages mode : ℤ) (candidates : ℕ → AddrInfo) (j : ℕ)
      → let s' = process_req codes k constants list (some (find_req codes n_pages mode)) s in
        stored n_pages mode candidates j
        ≡ (if ltb j s'.n_found then s'.found_addrs j else candidates j)
  unfolding placement_nl_process_msg send_req
  stored_lem n_pages mode candidates j =
      let req = find_req codes n_pages mode in
      let s' = process_req codes k constants list (some req) s in
      let some_entry = (process_req-answers codes k constants list req s).0 in
      let cut = put_packets_lem codes same s'.found_addrs s'.n_found some_entry in
      ap (λ ms. (read_messages ms 0 candidates).1 j) cut
      ∙ (read-messages s'.found_addrs s'.n_found candidates some_entry).1 j

  -- The count ends within the answer.
  stored-count :
      (n_pages mode : ℤ) (candidates : ℕ → AddrInfo)
      → let out = stored n_pages mode candidates in
        (c : ℕ) × (count_candidates (2 * pos_part n_pages + 2) 0 out ≡ some c)
        × (c ≤ 2 * pos_part n_pages + 1)
        × EndsAt out c
  stored-count n_pages mode candidates =
      let req = find_req codes n_pages mode in
      let s' = process_req codes k constants list (some req) s in
      let out = stored n_pages mode candidates in
      let all = process_req-answers codes k constants list req s in
      let inside : ltb (s'.n_found - 1) s'.n_found ≡ true = ground (arith, all.0) in
      let last : out (s'.n_found - 1) ≡ s'.found_addrs (s'.n_found - 1) =
        rw inside at (stored_lem n_pages mode candidates (s'.n_found - 1)) in
      let r =
        count_candidates-stops (2 * pos_part n_pages + 2) 0 out (s'.n_found - 1) (omega arith)
          (omega (arith, all.1)) (rw last (all.2)) in
      let ends = count_candidates-ends out (2 * pos_part n_pages + 2) 0 r.0 r.1 in
      (
        r.0,
        r.1,
        omega (arith, all.1, r.2),
        record { named = λ i b. ends.0 i (omega arith) b; stop = ends.1 },
      )

  -- A `send_find` that the module answers ends, whatever the count and the mode asked for, the state
  -- of the module and the moves that fail, where a packet has as many entries as in Ambix: the
  -- candidates that it counts are at most twice the count and one more, each of a process, and the
  -- value is at most their number.
  pub send_find_ends :
      (n_pages mode : ℤ) (candidates : ℕ → AddrInfo) (memory : ℕ → ℕ) (w : os.World)
      → (c : ℕ) × EndsAt (stored n_pages mode candidates) c
        × (c ≤ 2 * pos_part n_pages + 1)
        × ((r : ℕ × os.World) × (send_find os codes nodes answer
                (2 * pos_part n_pages + 2)
                n_pages
                mode
                candidates
                memory
                w
              ≡ some r)
            × (r.0 ≤ c))
  unfolding send_find
  send_find_ends n_pages mode candidates memory w =
      let out = stored n_pages mode candidates in
      let c = stored-count n_pages mode candidates in
      let r = migrate_found-ends os out c.0 c.3 codes nodes mode memory w in
      (c.0, c.3, c.2, (r.0, rw (c.1) (r.1), r.2))

  -- Where moving several pages is moving them one after the other, and does not fail, a `send_find`
  -- for DRAM or NVRAM pages moves each candidate that it counts once, in order, as a page of its own
  -- process, to the node of the other tier, and returns their number.
  pub send_find_moves :
      (laws : MoveLaws os) (n_pages mode : ℤ) (candidates : ℕ → AddrInfo) (memory : ℕ → ℕ)
      (w : os.World)
      → (mode ≡ codes.dram_mode) ⊎ (mode ≡ codes.nvram_mode)
      → let out = stored n_pages mode candidates in
        let dest_node = if mode ==ℤ codes.dram_mode then nodes.nvram_node else nodes.dram_node in
        (c : ℕ) × EndsAt out c
        × (send_find os codes nodes answer
              (2 * pos_part n_pages + 2)
              n_pages
              mode
              candidates
              memory
              w
            ≡ some (c, move_each os laws out dest_node c 0 w))
  unfolding send_find
  send_find_moves laws n_pages mode candidates memory w tier =
      let out = stored n_pages mode candidates in
      let c = stored-count n_pages mode candidates in
      (c.0, c.3, rw (c.1) (migrate_found-each os laws out c.0 c.3 codes nodes mode memory w tier))
