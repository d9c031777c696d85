-- ===== src/Placement/DemandTests.antt =====
-- The theorems on what a walk over several processes finds, on two processes.
use ambix.Base.{◌+◌, ◌*◌, slice, take, length, ◌<◌, ℕ, ◌≡◌, refl, pos, arith, [], ◌∷◌, ◌++◌}
use ambix.Config.{AddrInfo, contains, dram_mode, nvram_mode, nvram_write_mode, nvram_intensive_mode}
use ambix.Placement.Paged.{paged, paged_laws, two_tasks, two_running}
use ambix.Placement.Switch.{switch_walk}
use ambix.Placement.Switch.Walks.{hot_pages, exchanged, dram_walked}
use ambix.Placement.Switch.Demand.{switch_walk-wanted}
use ambix.Placement.Pids.Invariant.{IsWellFormed}
use ambix.Placement.Walk.{mem_walk, walk_dram, start_search}
use ambix.Placement.Callbacks.{pte_callback_mem}
use ambix.Placement.Walk.TopUp.{backup_list}
use ambix.Placement.Request.Bounds.{Valid}
use ambix.Placement.Walk.Memory.{Fresh}
use ambix.Placement.Walk.Demand.{Answers, dram_cycle, nvram_cycle, mem_walk-nvram, mem_walk-dram}
use ambix.Placement.Walk.Selection.{
  is_intensive_nvram, is_other_nvram, is_written_nvram, is_read_nvram, is_idle_dram,
}

two_tasks-IsWellFormed : IsWellFormed two_tasks
two_tasks-IsWellFormed = record {
  dram_in = omega arith;
  nvram_in = omega arith;
  fits = omega arith;
  tasks = λ i l. ground arith;
  distinct = λ i j l b. ground arith;
}

two_running-Fresh : Fresh paged two_running
two_running-Fresh = record {
  pids = two_tasks-IsWellFormed;
  empty = refl;
  backup = omega arith;
  switch_backup = omega arith;
  sound = refl;
}

pub two_running-Valid : Valid paged two_running
two_running-Valid = record {
  pids = two_tasks-IsWellFormed;
  backup = omega arith;
  switch_backup = omega arith;
  sound = refl;
}

abbrev page_of : ℕ → ℕ → AddrInfo
page_of pid addr = record { addr = addr; pid_retval = pos pid }

-- The accessed and written pages, from the second process at address 5 on.
intensive_pages :
    nvram_cycle paged (is_intensive_nvram paged) two_running ≡ page_of 42 4 ∷ page_of 43 4 ∷ []
unfolding contains
intensive_pages = refl

-- The others; the page at address 5, where the cycle begins, is also where it ends.
other_pages :
    nvram_cycle paged (is_other_nvram paged) two_running
    ≡ page_of 43 5 ∷ page_of 43 6 ∷ page_of 42 5 ∷ page_of 42 6 ∷ page_of 43 5 ∷ []
unfolding contains
other_pages = refl

mem_walk-nvram_example :
    let first = nvram_cycle paged (is_intensive_nvram paged) two_running in
    Answers paged 3
      (first ++ nvram_cycle paged (is_other_nvram paged) two_running)
      (mem_walk paged (pos 3) nvram_mode two_running)
    × Answers paged 3
        (first ++ nvram_cycle paged (is_written_nvram paged) two_running)
        (mem_walk paged (pos 3) nvram_write_mode two_running)
    × Answers paged 3
        (first ++ nvram_cycle paged (is_read_nvram paged) two_running)
        (mem_walk paged (pos 3) nvram_intensive_mode two_running)
mem_walk-nvram_example =
    mem_walk-nvram paged paged_laws 3 (omega arith) two_running (omega arith) two_running-Fresh

mem_walk-dram_example :
    let started = start_search paged (pos 3) two_running in
    Answers paged 3
      (dram_cycle paged (is_idle_dram paged) two_running
        ++ backup_list paged (walk_dram paged (pte_callback_mem paged) started))
      (mem_walk paged (pos 3) dram_mode two_running)
mem_walk-dram_example =
    mem_walk-dram paged paged_laws 3 (omega arith) two_running (omega arith) two_running-Fresh

-- A switch of one page finds one that is accessed and written.
some_hot : 0 < length (take 1 (hot_pages paged two_running))
unfolding contains
some_hot = omega arith

switch_walk-wanted_example :
    let r = switch_walk paged (pos 1) two_running in
    let c = exchanged paged 1 two_running in
    (r.0 ≡ pos 0)
    × (r.1.n_found ≡ 2 * c + 1)
    × (slice r.1.found_addrs 0 c ≡ take c (hot_pages paged two_running))
    × ((r.1.found_addrs c).pid_retval ≡ pos 0)
    × (slice r.1.found_addrs (c + 1) c
        ≡ take c (
            dram_cycle paged (is_idle_dram paged) two_running
            ++ backup_list paged (dram_walked paged 1 two_running)))
switch_walk-wanted_example =
    switch_walk-wanted paged paged_laws 1 (omega arith) two_running (omega arith) two_running-Fresh
      some_hot
