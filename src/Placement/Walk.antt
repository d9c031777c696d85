-- ===== src/Placement/Walk.antt =====
-- src/ambix_hyb-mod.c: the page walkers `do_page_walk`, `mem_walk` and `clear_walk`.
pub mod Keeps
pub mod Bounds
pub mod Memory
pub mod Clear
pub mod Selection
pub mod Negative
pub mod TopUp
pub mod Named
pub mod Answer
pub mod FirstFit
pub mod Offers
pub mod Alike
pub mod Likeness
pub mod Visit
pub mod Cycle
pub mod Tally
pub mod Walked
pub mod Backs
pub mod Backup
pub mod Demand
use ambix.Base.{
  ℕ, zero, suc, ◌+◌, ◌-◌, Bool, true, false, Option, none, some, ℤ, pos, negsuc, pos_part, min,
  ◌-ℤ◌, ◌==ℤ◌, leb_ℤ, ltb, if◌then◌else◌, List, [], ◌∷◌,
}
use ambix.Config.{max_address, dram_mode, nvram_mode, nvram_intensive_mode, nvram_write_mode}
use ambix.Kernel.{Kernel, Task}
use ambix.Placement.State.{State, push_found}
use ambix.Placement.Callbacks.{
  Callback, pte_callback_mem, pte_callback_nvram_force, pte_callback_nvram_intensive,
  pte_callback_nvram_write, pte_callback_nvram_clear,
}

module _ (k : Kernel) where
  -- What `walk_page_range` does with its callback: it runs it on each entry in turn, and ends at
  -- the first that it returns other than 0 for.
  unfoldable pub walk_entries :
      Callback k → ℕ → List (ℕ × Option k.Pte) → State k.Space → State k.Space
  walk_entries pte_entry m [] s = s
  walk_entries pte_entry m ((addr, pte) ∷ es) s =
      let r = pte_entry m addr pte s in
      let rest = walk_entries pte_entry m es r.1 in if r.0 then r.1 else rest

  unfoldable pub walk_page_range : Callback k → ℕ → ℕ → ℕ → State k.Space → State k.Space
  walk_page_range pte_entry m start end s =
      walk_entries pte_entry m (k.entries (s.spaces m) start end) s

  -- `mm = task_items[i]->mm; curr_pid = task_items[i]->pid; if (mm != NULL) { … }`
  unfoldable pub walk_task : Callback k → ℕ → ℕ → ℕ → State k.Space → State k.Space
  walk_task pte_entry i start end s = elim (s.task_items i) [
    | none ↦ record s { search = record (s.search) { fault = true } }
    | some t ↦
        let s' = record s { search = record (s.search) { curr_pid = t.pid } } in
        elim t.mm [ none ↦ s' | some m ↦ walk_page_range pte_entry m start end s' ]
  ]

  -- `n_found >= n_to_find`
  abbrev pub is_done : State k.Space → Bool
  is_done s = leb_ℤ s.n_to_find (pos s.n_found)

  -- One of the loops over the tasks from slot `i` on: the slot at which it returned, if it did.
  unfoldable pub walk_tasks : Callback k → ℕ → ℕ → State k.Space → Option ℕ × State k.Space
  walk_tasks pte_entry zero i s = (none, s)
  walk_tasks pte_entry (suc rounds) i s =
      let s' = walk_task pte_entry i 0 max_address s in
      let rest = walk_tasks pte_entry rounds (i + 1) s' in if is_done s' then (some i, s') else rest

  -- The last step, back in the first task up to the address where the walk began.
  unfoldable pub finish_cycle : Callback k → ℕ → ℕ → Option ℕ × State k.Space → ℕ × State k.Space
  finish_cycle pte_entry last_pid last_addr (some i, s) = (i, s)
  finish_cycle pte_entry last_pid last_addr (none, s) =
      (last_pid, walk_task pte_entry last_pid 0 (last_addr + 1) s)

  -- The second loop, over the slots before the first task.
  unfoldable pub walk_before : Callback k → ℕ → Option ℕ × State k.Space → Option ℕ × State k.Space
  walk_before pte_entry last_pid (some i, s) = (some i, s)
  walk_before pte_entry last_pid (none, s) = walk_tasks pte_entry last_pid 0 s

  unfoldable pub do_page_walk : Callback k → ℕ → ℕ → State k.Space → ℕ × State k.Space
  do_page_walk pte_entry last_pid last_addr s =
      let s' = walk_task pte_entry last_pid last_addr max_address s in
      if is_done s'
      then (last_pid, s')
      else finish_cycle pte_entry last_pid last_addr (
          walk_before pte_entry last_pid
            (walk_tasks pte_entry (s'.n_pids - (last_pid + 1)) (last_pid + 1) s'))

  abbrev pub walk_dram : Callback k → State k.Space → State k.Space
  walk_dram pte_entry s =
      let r = do_page_walk pte_entry s.last_pid_dram s.last_addr_dram s in
      record (r.1) { pids = record (r.1.pids) { last_pid_dram = r.0 } }

  abbrev pub walk_nvram : Callback k → State k.Space → State k.Space
  walk_nvram pte_entry s =
      let r = do_page_walk pte_entry s.last_pid_nvram s.last_addr_nvram s in
      record (r.1) { pids = record (r.1.pids) { last_pid_nvram = r.0 } }

  -- `for (i = j; (i < remaining) && (i < n_backup); i++)`, with so many rounds left: the backup
  -- candidates go behind those found.
  unfoldable pub add_backups : ℕ → ℕ → State k.Space → State k.Space
  add_backups zero i s = s
  add_backups (suc rounds) i s =
      add_backups rounds (i + 1) (record s { search = push_found s.search (s.backup_addrs i) })

  -- The rounds of that loop in `mem_walk`.
  abbrev pub top_up_rounds : State k.Space → ℕ
  top_up_rounds s = min (pos_part (s.n_to_find -ℤ pos s.n_found)) s.n_backup

  abbrev pub result_of : State k.Space → ℤ × State k.Space
  result_of s = (if is_done s then pos 0 else negsuc 0, s)

  -- What follows the walk in `mem_walk`.
  unfoldable pub top_up : State k.Space → ℤ × State k.Space
  top_up s =
      if is_done s
      then (pos 0, s)
      else if ltb 0 s.n_backup
      then result_of (add_backups (top_up_rounds s) 0 s)
      else (negsuc 0, s)

  abbrev pub start_search : ℤ → State k.Space → State k.Space
  start_search n s = record s { search = record (s.search) { n_to_find = n; n_backup = 0 } }

  unfoldable pub mem_walk : ℤ → ℤ → State k.Space → ℤ × State k.Space
  mem_walk n mode s =
      if mode ==ℤ dram_mode
      then top_up (walk_dram (pte_callback_mem k) (start_search n s))
      else if mode ==ℤ nvram_mode
      then top_up (walk_nvram (pte_callback_nvram_force k) (start_search n s))
      else if mode ==ℤ nvram_intensive_mode
      then top_up (walk_nvram (pte_callback_nvram_intensive k) (start_search n s))
      else if mode ==ℤ nvram_write_mode
      then top_up (walk_nvram (pte_callback_nvram_write k) (start_search n s))
      else (pos 0, s)

  -- One round of `clear_walk`, which takes the lock in `*mm` with no test for a null pointer.
  unfoldable pub clear_task : ℕ → State k.Space → State k.Space
  clear_task i s = elim (s.task_items i) [
    | none ↦ record s { search = record (s.search) { fault = true } }
    | some t ↦
        let s' = record s { search = record (s.search) { curr_pid = t.pid } } in
        elim t.mm [
          | none ↦ record s { search = record (s.search) { fault = true } }
          | some m ↦ walk_page_range (pte_callback_nvram_clear k) m 0 max_address s'
        ]
  ]

  unfoldable pub clear_tasks : ℕ → ℕ → State k.Space → State k.Space
  clear_tasks zero i s = s
  clear_tasks (suc rounds) i s = clear_tasks rounds (i + 1) (clear_task i s)

  unfoldable pub clear_walk : State k.Space → State k.Space
  clear_walk s = clear_tasks s.n_pids 0 s
