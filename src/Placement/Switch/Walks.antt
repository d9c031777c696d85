-- ===== src/Placement/Switch/Walks.antt =====
-- What the two walks of `switch_walk` find and back up, as a function of the page tables.
use ambix.Base.{
  ℕ, ◌+◌, ◌-◌, ◌≤◌, ◌<◌, ◌≡◌, refl, sym, ap, ◌∙◌, pos, List, ◌++◌, arith, take, take-nil,
  take-append_all, slice, length, length-slice, take_two, Option, Bool,
}
use ambix.Config.{AddrInfo, max_n_find, max_n_switch}
use ambix.Kernel.{Kernel}
use ambix.Kernel.Tables.{TableLaws}
use ambix.Placement.State.{State}
use ambix.Placement.Callbacks.{pte_callback_mem, pte_callback_nvram_switch}
use ambix.Placement.Callbacks.Bounds.{
  pte_callback_mem-KeepsSafe, pte_callback_nvram_switch-KeepsSafe,
}
use ambix.Placement.Walk.{walk_dram, walk_nvram, do_page_walk}
use ambix.Placement.Walk.Memory.{Ready, Fresh, walk_dram-Ready, walk_nvram-Ready}
use ambix.Placement.Walk.Selection.{
  found_list, is_idle_dram, is_intensive_nvram, is_read_nvram, nvram_switch-Selects, mem-Selects,
}
use ambix.Placement.Walk.Likeness.{nvram_switch-KeepsAlike, mem-KeepsAlike}
use ambix.Placement.Walk.Tally.{found_Tallies}
use ambix.Placement.Walk.Backs.{switch_shelf, nvram_switch-Backs}
use ambix.Placement.Walk.Backup.{backup_Tallies}
use ambix.Placement.Walk.Walked.{walked-Has, behind_Tallies}
use ambix.Placement.Walk.Demand.{dram_cycle, nvram_cycle}
use ambix.Placement.Switch.{start_switch, start_dram, separate}
use ambix.Placement.Switch.Bounds.{balanced}
use ambix.Placement.Switch.Balance.{
  start_switch-Ready, separate-Ready, dram_target, start_dram-Ready,
}
use ambix.Placement.Switch.Spared.{
  SparesDram, SparesBackup, switch-SparesDram, mem-SparesBackup, walk-Spares,
}

module _ (k : Kernel) where
  -- The candidates of the switch backup, in order.
  abbrev pub switch_list : State k.Space → List AddrInfo
  switch_list s = slice s.switch_backup_addrs 0 s.n_switch_backup

  -- The pages of NVRAM that a switch wants: those accessed and written, and then those only accessed.
  abbrev pub hot_pages : State k.Space → List AddrInfo
  hot_pages s = nvram_cycle k (is_intensive_nvram k) s ++ nvram_cycle k (is_read_nvram k) s

  -- The state after the walk of NVRAM, and after that of DRAM.
  abbrev pub nvram_walked : ℕ → State k.Space → State k.Space
  nvram_walked n s = walk_nvram k (pte_callback_nvram_switch k) (start_switch k (pos n) s)

  abbrev pub dram_walked : ℕ → State k.Space → State k.Space
  dram_walked n s =
      walk_dram k (pte_callback_mem k) (start_dram k (pos n) (separate k (nvram_walked n s)))

  -- How many pages of each tier a switch exchanges.
  abbrev pub exchanged : ℕ → State k.Space → ℕ
  exchanged n s =
      let nvram = (nvram_walked n s).n_found in
      let w = dram_walked n s in
      balanced k nvram (w.n_found - nvram - 1) w.n_backup w.n_switch_backup

-- A walk of DRAM, behind what is listed.
module _ (k : Kernel) (laws : TableLaws k) (b n : ℕ) (h : n ≤ max_n_find) (s : State k.Space)
    (r : Ready k b n s) where
  abbrev base : List AddrInfo
  base = found_list k s

  base_fits : length base ≤ n
  base_fits = omega (arith, length-slice s.found_addrs 0 s.n_found, r.bounded.found)

  walk_dram-behind :
      found_list k (walk_dram k (pte_callback_mem k) s)
      ≡ take n (base ++ dram_cycle k (is_idle_dram k) s)
  walk_dram-behind =
      walked-Has k laws (is_idle_dram k) b n (pte_callback_mem k)
        (pte_callback_mem-KeepsSafe k b n h) (mem-KeepsAlike k laws)
        (λ t xs. found_list k t ≡ take n (base ++ xs)) s r
        (behind_Tallies k (is_idle_dram k) (pte_callback_mem k) _
          (λ t xs. found_list k t ≡ take n xs) base
          (found_Tallies k (pte_callback_mem k) (is_idle_dram k) (mem-Selects k) b n s.task_items
            s.n_pids))
        (sym (take-append_all n base base_fits)) s.last_pid_dram s.last_addr_dram
        (omega (arith, r.pids.dram_in, r.busy))

  walk_dram-SparesBackup : SparesBackup k s (walk_dram k (pte_callback_mem k) s)
  walk_dram-SparesBackup =
      let w : SparesBackup k s
          (do_page_walk k (pte_callback_mem k) s.last_pid_dram s.last_addr_dram s).1 =
        walk-Spares k b n s r (pte_callback_mem k) (pte_callback_mem-KeepsSafe k b n h)
          (SparesBackup k s) (λ m addr e t v. mem-SparesBackup k m addr e s t v)
          (λ t pid v. record { same_backup = v.same_backup; same_count = v.same_count })
          (record { same_backup = refl; same_count = refl }) s.last_pid_dram s.last_addr_dram
          (omega (arith, r.pids.dram_in, r.busy)) in
      record { same_backup = w.same_backup; same_count = w.same_count }

module _ (k : Kernel) (laws : TableLaws k) (n : ℕ) (h : n ≤ max_n_switch) (s : State k.Space)
    (p : 0 < s.n_pids) (f : Fresh k s) where
  abbrev started : State k.Space
  started = start_switch k (pos n) s

  started-Ready : Ready k 0 n started
  started-Ready = start_switch-Ready k n s p f

  pub nvram_walked-Ready : Ready k 0 n (nvram_walked k n s)
  nvram_walked-Ready =
      walk_nvram-Ready k 0 n (pte_callback_nvram_switch k)
        (pte_callback_nvram_switch-KeepsSafe k 0 n h) started started-Ready

  nvram-found : found_list k (nvram_walked k n s) ≡ take n (nvram_cycle k (is_intensive_nvram k) s)
  nvram-found =
      walked-Has k laws (is_intensive_nvram k) 0 n (pte_callback_nvram_switch k)
        (pte_callback_nvram_switch-KeepsSafe k 0 n h) (nvram_switch-KeepsAlike k laws _) _ started
        started-Ready
        (found_Tallies k _ (is_intensive_nvram k) (nvram_switch-Selects k) 0 n s.task_items
          s.n_pids)
        (rw (f.empty) (sym (take-nil n))) s.last_pid_nvram s.last_addr_nvram
        (omega (arith, f.pids.nvram_in))

  nvram-backup :
      let w = nvram_walked k n s in
      take (n - w.n_found) (switch_list k w)
      ≡ take (n - w.n_found) (nvram_cycle k (is_read_nvram k) s)
  nvram-backup =
      walked-Has k laws (is_read_nvram k) 0 n (pte_callback_nvram_switch k)
        (pte_callback_nvram_switch-KeepsSafe k 0 n h) (nvram_switch-KeepsAlike k laws _) _ started
        started-Ready
        (backup_Tallies k _ (is_intensive_nvram k) (is_read_nvram k) (nvram_switch-Selects k)
          switch_shelf (nvram_switch-Backs k) 0 n s.task_items s.n_pids)
        refl s.last_pid_nvram s.last_addr_nvram (omega (arith, f.pids.nvram_in))

  -- The pages found in NVRAM and then those of the switch backup, as far as they can be wanted.
  pub nvram_walked-hot :
      take n (found_list k (nvram_walked k n s) ++ switch_list k (nvram_walked k n s))
      ≡ take n (hot_pages k s)
  nvram_walked-hot =
      let w = nvram_walked k n s in
      let r = nvram_walked-Ready in
      let counted = length-slice w.found_addrs 0 w.n_found in
      take_two n (found_list k w) _ (switch_list k w) _ (omega (arith, r.bounded.found)) nvram-found
        (rw counted nvram-backup)

  nvram_walked-SparesDram : SparesDram k s (nvram_walked k n s)
  nvram_walked-SparesDram =
      let w : SparesDram k started
          (do_page_walk k (pte_callback_nvram_switch k) s.last_pid_nvram s.last_addr_nvram
            started).1 =
        walk-Spares k 0 n started started-Ready (pte_callback_nvram_switch k)
          (pte_callback_nvram_switch-KeepsSafe k 0 n h) (SparesDram k started)
          (λ m addr e t v. switch-SparesDram k m addr e started t v)
          (λ t pid v. record {
            same_spaces = v.same_spaces;
            same_items = v.same_items;
            same_number = v.same_number;
            same_pid = v.same_pid;
            same_addr = v.same_addr;
          })
          (record {
            same_spaces = refl;
            same_items = refl;
            same_number = refl;
            same_pid = refl;
            same_addr = refl;
          })
          s.last_pid_nvram s.last_addr_nvram (omega (arith, f.pids.nvram_in)) in
      record {
        same_spaces = w.same_spaces;
        same_items = w.same_items;
        same_number = w.same_number;
        same_pid = w.same_pid;
        same_addr = w.same_addr;
      }

  dram_cycle-same :
      (test : Option k.Pte → Bool) (t : State k.Space)
      → SparesDram k s t
      → dram_cycle k test t ≡ dram_cycle k test s
  dram_cycle-same test t v =
      rw (v.same_spaces, v.same_items, v.same_number, v.same_pid, v.same_addr) refl

  -- The state in which the walk of DRAM starts.
  abbrev pub second : State k.Space
  second = start_dram k (pos n) (separate k (nvram_walked k n s))

  -- How many entries it may leave.
  abbrev pub room : ℕ
  room = dram_target k n (separate k (nvram_walked k n s))

  pub second-Ready : Ready k ((nvram_walked k n s).n_found + 1) room second
  second-Ready =
      start_dram-Ready k n (separate k (nvram_walked k n s)) h
        (separate-Ready k n (nvram_walked k n s) h nvram_walked-Ready)

  pub room-le : room ≤ max_n_find
  room-le = let r = nvram_walked-Ready in omega (arith, r.bounded.found)

  pub dram_walked-Ready : Ready k ((nvram_walked k n s).n_found + 1) room (dram_walked k n s)
  dram_walked-Ready =
      walk_dram-Ready k ((nvram_walked k n s).n_found + 1) room (pte_callback_mem k)
        (pte_callback_mem-KeepsSafe k ((nvram_walked k n s).n_found + 1) room room-le) second
        second-Ready

  second-SparesDram : SparesDram k s second
  unfolding start_dram
  second-SparesDram =
      let w = nvram_walked-SparesDram in
      record {
        same_spaces = w.same_spaces;
        same_items = w.same_items;
        same_number = w.same_number;
        same_pid = w.same_pid;
        same_addr = w.same_addr;
      }

  -- Behind the pages of NVRAM and the separator, the idle pages of DRAM.
  pub dram_walked-found :
      found_list k (dram_walked k n s)
      ≡ take room (found_list k second ++ dram_cycle k (is_idle_dram k) s)
  dram_walked-found =
      walk_dram-behind k laws ((nvram_walked k n s).n_found + 1) room room-le second second-Ready
      ∙ ap (λ xs. take room (found_list k second ++ xs))
          (dram_cycle-same (is_idle_dram k) second second-SparesDram)

  pub dram_walked-SparesBackup : SparesBackup k second (dram_walked k n s)
  dram_walked-SparesBackup =
      walk_dram-SparesBackup k laws ((nvram_walked k n s).n_found + 1) room room-le second
        second-Ready
