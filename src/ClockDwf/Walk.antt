-- ===== src/ClockDwf/Walk.antt =====
-- src/tests/clock-dwf/clockdwf-mod.c: `do_page_walk`, `dram_walk`, `nvram_walk` and `switch_walk`.
use ambix.Base.{
  ℕ, zero, suc, ◌+◌, ◌-◌, ◌*◌, ◌^◌, true, false, Option, none, some, ℤ, pos, negsuc, ◌+ℤ◌, ltb,
  ◌==◌, if◌then◌else◌, update, List, [], ◌∷◌,
}
use ambix.Kernel.{Kernel}
use ambix.Controller.Migration.{to_int}
use ambix.ClockDwf.{
  Constants, ClockState, ClockCallback, has_all, pte_callback_dram, pte_callback_force_nvram,
  pte_callback_perfect_nvram,
}

-- The conversion of an `int` to `unsigned long`.
abbrev pub to_ulong : ℤ → ℕ
to_ulong (pos n) = n
to_ulong (negsuc n) = 2 ^ 64 - 1 - n

module _ (k : Kernel) (constants : Constants) where
  abbrev pub State : Type 0
  State = ClockState k.Space

  -- The callbacks return 0, so `walk_page_range` runs them on each entry.
  unfoldable pub run_entries :
      ClockCallback k constants → ℕ → List (ℕ × Option k.Pte) → State → State
  run_entries pte_entry m [] s = s
  run_entries pte_entry m ((addr, pte) ∷ es) s = run_entries pte_entry m es (pte_entry m addr pte s)

  -- `mm = task_items[i]->mm;` with the walk; `mm` is read with no test for a null pointer.
  unfoldable pub clock_task : ClockCallback k constants → ℕ → ℕ → ℕ → State → State
  clock_task pte_entry i start end s = elim (s.pids.task_items i) [
    | none ↦ record s { fault = true }
    | some t ↦ elim t.mm [
      | none ↦ record s { fault = true }
      | some m ↦
          run_entries pte_entry m (k.entries (s.spaces m) start end) (record s { curr_pid = t.pid })
    ]
  ]

  -- One of the loops over the tasks: the slot at which it returned, if it did.
  unfoldable pub clock_tasks : ClockCallback k constants → ℕ → ℕ → State → Option ℕ × State
  clock_tasks pte_entry zero j s = (none, s)
  clock_tasks pte_entry (suc rounds) j s =
      let s' = clock_task pte_entry j 0 constants.max_address s in
      let rest = clock_tasks pte_entry rounds (j + 1) s' in
      if has_all k constants s' then (some j, s') else rest

  -- The second loop, `for(j = 0; j < last_pid-1; j++)`.
  unfoldable pub clock_before : ClockCallback k constants → ℕ → Option ℕ × State → Option ℕ × State
  clock_before pte_entry last_pid (some j, s) = (some j, s)
  clock_before pte_entry last_pid (none, s) = clock_tasks pte_entry (last_pid - 1) 0 s

  -- The end of a cycle. `last_addr` is an `int`.
  unfoldable pub clock_finish :
      ClockCallback k constants → ℕ → ℤ → Option ℕ × State → Option ℕ × State
  clock_finish pte_entry last_pid last_addr (some j, s) = (some j, s)
  clock_finish pte_entry last_pid last_addr (none, s) =
      let s' = clock_task pte_entry last_pid 0 (to_ulong (last_addr +ℤ pos 1)) s in
      (if has_all k constants s' then some last_pid else none, s')

  -- One cycle: the slot to go on from, if it returned or left the loop.
  unfoldable pub clock_cycle : ClockCallback k constants → ℕ → ℤ → State → Option ℕ × State
  clock_cycle pte_entry last_pid last_addr s =
      let s' = clock_task pte_entry last_pid (to_ulong last_addr) constants.max_address s in
      if has_all k constants s'
      then (some last_pid, s')
      else clock_finish pte_entry last_pid last_addr (
          clock_before pte_entry last_pid
            (clock_tasks pte_entry (s'.pids.n_pids - (last_pid + 1)) (last_pid + 1) s'))

  abbrev pub after_cycle : Option ℕ × State → ℕ × State → ℕ × State
  after_cycle (some j, s) rest = (j, s)
  after_cycle (none, s) rest = rest

  -- `for(i = 0; (i < n_cycles) && (n_pids > 0); i++)`
  unfoldable pub clock_cycles : ClockCallback k constants → ℕ → ℕ → ℤ → State → ℕ × State
  clock_cycles pte_entry zero last_pid last_addr s = (last_pid, s)
  clock_cycles pte_entry (suc n_cycles) last_pid last_addr s =
      let r = clock_cycle pte_entry last_pid last_addr s in
      let rest = clock_cycles pte_entry n_cycles last_pid last_addr r.1 in
      if ltb 0 s.pids.n_pids then after_cycle r rest else (last_pid, s)

  -- The address comes as an `unsigned long` and is taken as an `int`.
  unfoldable pub do_page_walk : ℕ → ClockCallback k constants → ℕ → ℕ → State → ℕ × State
  do_page_walk n_cycles pte_entry last_pid last_addr s =
      clock_cycles pte_entry n_cycles last_pid (to_int last_addr) s

  abbrev pub start_walk : ℤ → State → State
  start_walk n s = record s { n_to_find = n; found_last = false }

  unfoldable pub walk_dram : State → State
  walk_dram s =
      let r =
        do_page_walk 2 (pte_callback_dram k constants) s.pids.last_pid_dram s.pids.last_addr_dram
          s in
      record (r.1) { pids = record (r.1.pids) { last_pid_dram = r.0 } }

  unfoldable pub walk_nvram : ClockCallback k constants → State → State
  walk_nvram pte_entry s =
      let r = do_page_walk 1 pte_entry s.pids.last_pid_nvram s.pids.last_addr_nvram s in
      record (r.1) { pids = record (r.1.pids) { last_pid_nvram = r.0 } }

  abbrev pub result_of : State → ℤ × State
  result_of s = (if has_all k constants s then pos 0 else negsuc 0, s)

  unfoldable pub dram_walk : ℤ → State → ℤ × State
  dram_walk n s = result_of (walk_dram (start_walk n s))

  -- The second walk, where the first one found too few pages.
  unfoldable pub force_walk : State → ℤ × State
  force_walk s =
      if has_all k constants s
      then (pos 0, s)
      else result_of (walk_nvram (pte_callback_force_nvram k constants) s)

  unfoldable pub nvram_walk : ℤ → State → ℤ × State
  nvram_walk n s = force_walk (walk_nvram (pte_callback_perfect_nvram k constants) (start_walk n s))

  -- `found_addrs[i] = found_addrs[nvram_found+1+i];` for i = i, i + 1, …, so many rounds
  unfoldable pub copy_back : ℕ → ℕ → ℕ → State → State
  copy_back zero i nvram_found s = s
  copy_back (suc rounds) i nvram_found s =
      copy_back rounds (i + 1) nvram_found
        (record s { found_addrs = update s.found_addrs i (s.found_addrs (nvram_found + 1 + i)) })

  -- `found_addrs[i].pid_retval = 0;`
  abbrev pub put_separator : ℕ → State → State
  put_separator i s = record s {
    found_addrs = update s.found_addrs i (record (s.found_addrs i) { pid_retval = pos 0 });
  }

  -- The array made again for so many DRAM pages.
  unfoldable pub reconstruct : ℕ → ℕ → State → State
  reconstruct dram_found nvram_found s =
      copy_back dram_found (dram_found + 1) nvram_found
        (record (put_separator dram_found s) { n_found = dram_found * 2 + 1 })

  -- What follows the second walk, given the number of NVRAM pages.
  unfoldable pub rebalance : ℕ → State → ℤ × State
  rebalance nvram_found s =
      let dram_found = s.n_found - nvram_found - 1 in
      if dram_found == nvram_found
      then (pos 0, s)
      else (negsuc 0, reconstruct dram_found nvram_found s)

  unfoldable pub switch_walk : ℤ → State → ℤ × State
  switch_walk n s =
      let s' = walk_nvram (pte_callback_perfect_nvram k constants) (start_walk n s) in
      let separated = put_separator s'.n_found s' in
      rebalance s'.n_found (
        walk_dram (record separated {
          n_to_find = pos (s'.n_found * 2 + 1);
          n_found = s'.n_found + 1;
          found_last = false;
        }))
