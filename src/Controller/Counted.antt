-- ===== src/Controller/Counted.antt =====
-- `send_find` counts exactly the pages that the module found: the pids of those are positive, and what
-- follows them is not.
use ambix.Base.{
  ℕ, zero, suc, ◌+◌, ◌≤◌, ◌<◌, ◌≡◌, sym, subst, ap, false, some, ℤ, pos, negsuc, pos_part, ltb_ℤ,
  leb_ℤ, List, ltb, arith, Bool-cases, inl, inr, min, true,
}
use ambix.Config.{AddrInfo, Req, switch_mode, max_n_find, max_n_switch}
use ambix.Netlink.{Message}
use ambix.Kernel.{Kernel, Processes, Task}
use ambix.Placement.State.{State}
use ambix.Placement.Pids.{refresh_pids}
use ambix.Placement.Walk.Named.{IsNamed, IsBoundPid}
use ambix.Placement.Request.{put_result, process_req}
use ambix.Placement.Request.Bounds.{Valid, Answerable, process_req-Valid}
use ambix.Placement.Reply.{placement_nl_process_msg}
use ambix.Controller.Comm.{count_candidates}
use ambix.Controller.Migration.{Os, Plan}
use ambix.Controller.Switch.{find_req, migrate_found, migrate_counted, send_find}
use ambix.Controller.Find.{IsResult}
use ambix.Controller.Searched.{
  IsMemMode, not_clear, searched, stored, Pairs, mem_mode-named, switch_mode-Pairs, received,
}

positive : (x : ℤ) → 0 < pos_part x → ltb_ℤ (pos 0) x ≡ true
positive (pos n) h = ground arith
positive (negsuc n) h = absurd (omega arith)

not_positive : (x : ℤ) → leb_ℤ x (pos 0) ≡ true → ltb_ℤ (pos 0) x ≡ false
not_positive x h = ground arith

-- The count is exact: positive pids below `c`, and none at `c`.
pub count_candidates-exact :
    (fuel i c : ℕ) (candidates : ℕ → AddrInfo)
    → i ≤ c
    → c < i + fuel
    → ((j : ℕ) → j < c → IsNamed (candidates j))
    → IsResult (candidates c).pid_retval
    → count_candidates fuel i candidates ≡ some c
unfolding count_candidates
count_candidates-exact zero i c candidates h l named stop = absurd (omega arith)
count_candidates-exact (suc fuel) i c candidates h l named stop = elim (Bool-cases (ltb i c)) [
  | inl less ↦
      let more = positive (candidates i).pid_retval (named i (ground arith)) in
      rw more
        (count_candidates-exact fuel (i + 1) c candidates (ground arith) (omega arith) named stop)
  | inr last ↦
      let e : i ≡ c = ground arith in
      let ends : ltb_ℤ (pos 0) (candidates i).pid_retval ≡ false =
        rw e (not_positive (candidates c).pid_retval stop) in
      rw ends (ap some e)
]

module _ (k : Kernel) (ps : Processes) (s : State k.Space)
    (lookup : (pid : ℤ) (t : Task) → ps.get_pid_task pid ≡ some t → t.pid ≡ pid) (v : Valid k s)
    (os : Os) (page_size : ℕ) (candidates : ℕ → AddrInfo) (memory : Plan) (w : os.World) where
  abbrev answer : Req → List Message
  answer r = (placement_nl_process_msg k ps true (some r) s).0

  pub searched-le :
      (n : ℕ) (mode : ℤ)
      → Answerable k ps (some (find_req (pos n) mode)) s
      → (searched k ps s (pos n) mode).n_found ≤ max_n_find
  unfolding process_req put_result
  searched-le n mode a =
      let p = process_req-Valid k ps (some (find_req (pos n) mode)) s lookup v a in
      omega (arith, p.2)

  -- A count that is known is what `send_find` migrates.
  pub send_find-count :
      (n_pages mode : ℤ) (c : ℕ)
      → count_candidates (max_n_find + 1) 0 (stored k ps s candidates n_pages mode) ≡ some c
      → send_find os page_size answer (max_n_find + 1) n_pages mode candidates memory w
        ≡ migrate_found os page_size (stored k ps s candidates n_pages mode) mode c memory w
  unfolding send_find
  send_find-count n_pages mode c e =
      ap (migrate_counted os page_size (stored k ps s candidates n_pages mode) mode memory w) e

  mem_mode-Answerable :
      (n : ℕ) (mode : ℤ) → IsMemMode mode → Answerable k ps (some (find_req (pos n) mode)) s
  mem_mode-Answerable n mode m e = (_, λ clears. absurd (not_clear mode m clears))

  -- A FIND in the mode DRAM, NVRAM, NVRAM write or NVRAM intensive, answered in a valid state:
  -- `send_find` migrates exactly as many candidates as the module found, and each is the page that the
  -- module found at its index, with the pid, which is positive, of a process that is bound then.
  pub send_find-mem :
      (n : ℕ) (mode : ℤ)
      → IsMemMode mode
      → let t = searched k ps s (pos n) mode in
        (send_find os page_size answer (max_n_find + 1) (pos n) mode candidates memory w
          ≡ migrate_found os page_size
              (stored k ps s candidates (pos n) mode)
              mode
              t.n_found
              memory
              w)
        × ((j : ℕ)
            → j < t.n_found
            → (stored k ps s candidates (pos n) mode j ≡ t.found_addrs j)
              × IsBoundPid
                  (refresh_pids ps s.pids)
                  (stored k ps s candidates (pos n) mode j).pid_retval)
  send_find-mem n mode m =
      let t = searched k ps s (pos n) mode in
      let r = received k ps s (pos n) mode candidates in
      let le = searched-le n mode (mem_mode-Answerable n mode m) in
      let named = λ (j : ℕ) (l : j < t.n_found).
        subst (λ e. IsBoundPid (refresh_pids ps s.pids) e.pid_retval) (sym (r.0 j l))
          (mem_mode-named k ps s n mode v m j l) in
      (
        send_find-count (pos n) mode t.n_found (
            count_candidates-exact (max_n_find + 1) 0 t.n_found
              (stored k ps s candidates (pos n) mode) (omega arith) (omega (arith, le))
              (λ j l. (named j l).0) r.1),
        λ j l. (r.0 j l, named j l),
      )

  pub switch-Answerable : (n : ℕ) → Answerable k ps (some (find_req (pos n) switch_mode)) s
  switch-Answerable n e = (_, λ clears. absurd (ground (arith, clears)))

  -- A FIND in the mode SWITCH, answered in a valid state: `send_find` hands to `do_switch` a number of
  -- pages of each tier, at most the number asked for. The candidates so counted, and as many behind the
  -- separator, carry positive pids.
  pub send_find-switch :
      (n : ℕ)
      → let out = stored k ps s candidates (pos n) switch_mode in
        (c : ℕ) × (c ≤ min max_n_switch n)
        × (send_find os page_size answer (max_n_find + 1) (pos n) switch_mode candidates memory w
            ≡ migrate_found os page_size out switch_mode c memory w)
        × ((j : ℕ) → j < c → IsNamed (out j) × IsNamed (out (c + 1 + j)))
  send_find-switch n =
      let t = searched k ps s (pos n) switch_mode in
      let out = stored k ps s candidates (pos n) switch_mode in
      let r = received k ps s (pos n) switch_mode candidates in
      let le = searched-le n switch_mode (switch-Answerable n) in
      by_pairs n r.0 r.1 le (switch_mode-Pairs k ps s n v)
    where
      by_pairs :
          (n : ℕ)
          → let t = searched k ps s (pos n) switch_mode in
            let out = stored k ps s candidates (pos n) switch_mode in
            ((j : ℕ) → j < t.n_found → out j ≡ t.found_addrs j)
            → IsResult (out t.n_found).pid_retval
            → t.n_found ≤ max_n_find
            → Pairs k ps s (min max_n_switch n) t
            → (c : ℕ) × (c ≤ min max_n_switch n)
              × (send_find os page_size answer
                    (max_n_find + 1)
                    (pos n)
                    switch_mode
                    candidates
                    memory
                    w
                  ≡ migrate_found os page_size out switch_mode c memory w)
              × ((j : ℕ) → j < c → IsNamed (out j) × IsNamed (out (c + 1 + j)))
      by_pairs n same last le (inl none_found) = (
        0,
        omega arith,
        send_find-count (pos n) switch_mode 0 (
            count_candidates-exact (max_n_find + 1) 0 0
              (stored k ps s candidates (pos n) switch_mode) (omega arith) (omega arith)
              (λ j l. absurd (omega arith))
              (subst (λ i. IsResult (stored k ps s candidates (pos n) switch_mode i).pid_retval)
                none_found last)),
        λ j l. absurd (omega arith),
      )
      by_pairs n same last le (inr (c, most, p)) =
          let out = stored k ps s candidates (pos n) switch_mode in
          let total = p.total in
          let named =
            λ (j : ℕ) (l : j < c). subst IsNamed (sym (same j (omega arith))) (p.before j l) in
          (
            c,
            most,
            send_find-count (pos n) switch_mode c (
                count_candidates-exact (max_n_find + 1) 0 c out (omega arith) (omega arith) named
                  (let sep = same c (omega arith) in let zero_pid = p.separator in ground arith)),
            λ j l. (named j l, subst IsNamed (sym (same (c + 1 + j) (omega arith))) (p.behind j l)),
          )
