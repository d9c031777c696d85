-- ===== src/Controller/Exchanged.antt =====
-- What a FIND in the mode SWITCH exchanges, as a function of the page tables.
use ambix.Base.{
  ℕ, ◌+◌, ◌*◌, ◌<◌, ◌≡◌, sym, ◌∙◌, subst, true, some, ℤ, pos, ◌++◌, min, length, take, slice,
  slice_ext, arith,
}
use ambix.Config.{AddrInfo, Req, max_n_find, max_n_switch, switch_mode}
use ambix.Kernel.{Kernel, Processes, Task}
use ambix.Kernel.Tables.{TableLaws}
use ambix.Placement.State.{State}
use ambix.Placement.Pids.{refresh_pids}
use ambix.Placement.Walk.Named.{IsNamed}
use ambix.Placement.Walk.Selection.{is_idle_dram}
use ambix.Placement.Walk.TopUp.{backup_list}
use ambix.Placement.Walk.Demand.{dram_cycle}
use ambix.Placement.Switch.Answer.{switch_walk-NamedPairs}
use ambix.Placement.Switch.Walks.{hot_pages, exchanged, dram_walked}
use ambix.Placement.Switch.{switch_walk}
use ambix.Placement.Switch.Demand.{switch_walk-wanted}
use ambix.Placement.Request.Bounds.{Valid}
use ambix.Placement.Reply.{placement_nl_process_msg}
use ambix.Controller.Find.{IsResult}
use ambix.Controller.Migration.{Os, Plan}
use ambix.Controller.Switch.{migrate_found, send_find}
use ambix.Controller.Searched.{searched, stored, started, started-Fresh, searched-switch, received}
use ambix.Controller.Counted.{
  count_candidates-exact, searched-le, send_find-count, switch-Answerable,
}

module _ (k : Kernel) (laws : TableLaws k) (ps : Processes) (s : State k.Space)
    (lookup : (pid : ℤ) (t : Task) → ps.get_pid_task pid ≡ some t → t.pid ≡ pid) (v : Valid k s)
    (os : Os) (page_size : ℕ) (candidates : ℕ → AddrInfo) (memory : Plan) (w : os.World)
    (busy : 0 < (refresh_pids ps s.pids).n_pids) (n : ℕ) where
  -- The state in which the walks start, with the processes that are alive.
  abbrev start : State k.Space
  start = started k ps s

  abbrev most : ℕ
  most = min max_n_switch n

  abbrev pages_each : ℕ
  pages_each = exchanged k most start

  abbrev found : State k.Space
  found = searched k ps s (pos n) switch_mode

  abbrev out : ℕ → AddrInfo
  out = stored k ps s candidates (pos n) switch_mode

  found-walked : found ≡ (switch_walk k (pos most) start).1
  found-walked = searched-switch k ps s n (ground arith)

  module _ (more : 0 < length (take most (hot_pages k start))) where
    -- What the module leaves, of which the controller stores each entry.
    layout :
        (found.n_found ≡ 2 * pages_each + 1)
        × (slice found.found_addrs 0 pages_each ≡ take pages_each (hot_pages k start))
        × ((found.found_addrs pages_each).pid_retval ≡ pos 0)
        × (slice found.found_addrs (pages_each + 1) pages_each
            ≡ take pages_each
                (dram_cycle k (is_idle_dram k) start ++ backup_list k (dram_walked k most start)))
    layout =
        let r =
          switch_walk-wanted k laws most (omega arith) start busy (started-Fresh k ps s v) more in
        rw found-walked (r.1, r.2, r.3, r.4)

    named : (j : ℕ) → j < pages_each → IsNamed (found.found_addrs j)
    named j l =
        let (c, le, p) =
          switch_walk-NamedPairs k most start (omega arith) busy (started-Fresh k ps s v) in
        let total : (switch_walk k (pos most) start).1.n_found ≡ 2 * pages_each + 1 =
          (switch_walk-wanted k laws most (omega arith) start busy (started-Fresh k ps s v)
            more).1 in
        rw found-walked (p.before j (omega (arith, p.total, total)))

    arrived : (j : ℕ) → j < found.n_found → out j ≡ found.found_addrs j
    arrived = (received k ps s (pos n) switch_mode candidates).0

    ends : IsResult (out pages_each).pid_retval
    ends =
        let sep = layout.2 in
        let same = arrived pages_each (omega (arith, layout.0)) in ground arith

    counted :
        let answer = λ (r : Req). (placement_nl_process_msg k ps true (some r) s).0 in
        send_find os page_size answer (max_n_find + 1) (pos n) switch_mode candidates memory w
        ≡ migrate_found os page_size out switch_mode pages_each memory w
    counted =
        let le =
          searched-le k ps s lookup v os page_size candidates memory w n switch_mode
            (switch-Answerable k ps s lookup v os page_size candidates memory w n) in
        send_find-count k ps s lookup v os page_size candidates memory w (pos n) switch_mode
          pages_each
          (count_candidates-exact (max_n_find + 1) 0 pages_each out (omega arith)
            (omega (arith, le, layout.0))
            (λ j l. subst IsNamed (sym (arrived j (omega (arith, layout.0)))) (named j l)) ends)

    -- A FIND in the mode SWITCH, answered in a valid state with a process alive, where page tables do
    -- what is documented and some page of NVRAM is wanted: `send_find` hands to `do_switch` the same
    -- number of pages of each tier. Those of NVRAM are the first of the pages accessed and written, and
    -- behind them of those only accessed; those of DRAM the first of the idle pages, and behind them of
    -- those that the walk backed up.
    pub send_find-exchanged :
        let answer = λ (r : Req). (placement_nl_process_msg k ps true (some r) s).0 in
        (send_find os page_size answer (max_n_find + 1) (pos n) switch_mode candidates memory w
          ≡ migrate_found os page_size out switch_mode pages_each memory w)
        × (slice out 0 pages_each ≡ take pages_each (hot_pages k start))
        × (slice out (pages_each + 1) pages_each
            ≡ take pages_each
                (dram_cycle k (is_idle_dram k) start ++ backup_list k (dram_walked k most start)))
    send_find-exchanged = (
      counted,
      slice_ext out found.found_addrs 0 0 pages_each
            (λ j l. arrived (0 + j) (omega (arith, layout.0)))
          ∙ layout.1,
      slice_ext out found.found_addrs (pages_each + 1) (pages_each + 1) pages_each
            (λ j l. arrived (pages_each + 1 + j) (omega (arith, layout.0)))
          ∙ layout.3,
    )
