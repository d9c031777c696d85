-- ===== src/MixM/Walk.antt =====
-- src/ambix-MixM/ambix_MixM-mod.c: the page walks of the variant, which do not test a task's `mm` for a
-- null pointer.
use ambix.Base.{ℕ, zero, suc, ◌+◌, ◌-◌, true, Option, none, some, ℤ, pos, ◌==ℤ◌, if◌then◌else◌}
use ambix.Config.{max_address, dram_mode, nvram_mode, nvram_intensive_mode, nvram_write_mode}
use ambix.Kernel.{Kernel}
use ambix.Placement.State.{State}
use ambix.Placement.Callbacks.{Callback}
use ambix.Placement.Walk.{walk_page_range, is_done, top_up, start_search}
use ambix.MixM.Callbacks.{
  pte_callback_mem, pte_callback_nvram_force, pte_callback_nvram_intensive,
  pte_callback_nvram_write,
}

module _ (k : Kernel) where
  unfoldable pub walk_task : Callback k → ℕ → ℕ → ℕ → State k.Space → State k.Space
  walk_task pte_entry i start end s = elim (s.task_items i) [
    | none ↦ record s { search = record (s.search) { fault = true } }
    | some t ↦ elim t.mm [
      | none ↦ record s { search = record (s.search) { curr_pid = t.pid; fault = true } }
      | some m ↦
          walk_page_range k pte_entry m start end
            (record s { search = record (s.search) { curr_pid = t.pid } })
    ]
  ]

  unfoldable pub walk_tasks : Callback k → ℕ → ℕ → State k.Space → Option ℕ × State k.Space
  walk_tasks pte_entry zero i s = (none, s)
  walk_tasks pte_entry (suc rounds) i s =
      let s' = walk_task pte_entry i 0 max_address s in
      let rest = walk_tasks pte_entry rounds (i + 1) s' in
      if is_done k s' then (some i, s') else rest

  unfoldable pub finish_cycle : Callback k → ℕ → ℕ → Option ℕ × State k.Space → ℕ × State k.Space
  finish_cycle pte_entry last_pid last_addr (some i, s) = (i, s)
  finish_cycle pte_entry last_pid last_addr (none, s) =
      (last_pid, walk_task pte_entry last_pid 0 (last_addr + 1) s)

  unfoldable pub walk_before : Callback k → ℕ → Option ℕ × State k.Space → Option ℕ × State k.Space
  walk_before pte_entry last_pid (some i, s) = (some i, s)
  walk_before pte_entry last_pid (none, s) = walk_tasks pte_entry last_pid 0 s

  unfoldable pub do_page_walk : Callback k → ℕ → ℕ → State k.Space → ℕ × State k.Space
  do_page_walk pte_entry last_pid last_addr s =
      let s' = walk_task pte_entry last_pid last_addr max_address s in
      if is_done k s'
      then (last_pid, s')
      else finish_cycle pte_entry last_pid last_addr (
          walk_before pte_entry last_pid
            (walk_tasks pte_entry (s'.n_pids - (last_pid + 1)) (last_pid + 1) s'))

  abbrev pub walk_dram : Callback k → State k.Space → State k.Space
  walk_dram pte_entry s =
      let r = do_page_walk pte_entry s.last_pid_dram s.last_addr_dram s in
      record (r.1) { pids = record (r.1.pids) { last_pid_dram = r.0 } }

  abbrev pub walk_nvram : Callback k → State k.Space → State k.Space
  walk_nvram pte_entry s =
      let r = do_page_walk pte_entry s.last_pid_nvram s.last_addr_nvram s in
      record (r.1) { pids = record (r.1.pids) { last_pid_nvram = r.0 } }

  unfoldable pub mem_walk : ℤ → ℤ → State k.Space → ℤ × State k.Space
  mem_walk n mode s =
      if mode ==ℤ dram_mode
      then top_up k (walk_dram (pte_callback_mem k) (start_search k n s))
      else if mode ==ℤ nvram_mode
      then top_up k (walk_nvram (pte_callback_nvram_force k) (start_search k n s))
      else if mode ==ℤ nvram_intensive_mode
      then top_up k (walk_nvram (pte_callback_nvram_intensive k) (start_search k n s))
      else if mode ==ℤ nvram_write_mode
      then top_up k (walk_nvram (pte_callback_nvram_write k) (start_search k n s))
      else (pos 0, s)
