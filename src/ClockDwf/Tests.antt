-- ===== src/ClockDwf/Tests.antt =====
-- The walks of clockdwf-mod.c on a small page table, and its theorems on concrete inputs.
use ambix.Base.{◌+◌, ◌*◌, ◌≡◌, ◌<◌, refl, pos, negsuc, arith, ◌∷◌, [], true, false, ℕ}
use ambix.Placement.Machine.{machine, Table, page, one_task}
use ambix.Placement.Tests.{entry}
use ambix.ClockDwf.{Constants, ClockState, pte_callback_dram, pte_callback_perfect_nvram}
use ambix.ClockDwf.Walk.{
  dram_walk, nvram_walk, switch_walk, rebalance, reconstruct, copy_back, walk_nvram, walk_dram,
  do_page_walk, clock_cycles, clock_cycle, clock_task, run_entries, clock_finish, clock_before,
  clock_tasks,
}
use ambix.Controller.Migration.{to_int}
use ambix.ClockDwf.Counts.{IsAnswer, clock_walks-IsAnswer}
use ambix.ClockDwf.Stale.{rebalance_stale}

abbrev pub small : Constants
small = record { max_address = 100; nvram_node = 2 }

-- One idle page of DRAM, one in use, and two pages of NVRAM, one only read.
abbrev pages : Table
pages =
    (1, page 0 false false)
    ∷ (2, page 0 true true)
    ∷ (8, page 2 true true)
    ∷ (9, page 2 true false)
    ∷ (11, page 2 true true)
    ∷ []

-- One idle page of DRAM, and five pages of NVRAM to take.
abbrev uneven : Table
uneven =
    (1, page 0 false false)
    ∷ (4, page 2 true true)
    ∷ (5, page 2 true true)
    ∷ (6, page 2 true true)
    ∷ (7, page 2 true true)
    ∷ (8, page 2 true true)
    ∷ []

abbrev pub bound : ClockState Table
bound = record {
  pids = one_task;
  found_addrs = entry;
  curr_pid = pos 0;
  n_to_find = pos 0;
  n_found = 0;
  found_last = false;
  fault = false;
  spaces = λ m. pages;
}

-- A page found in the first cycle is found again in the second.
dram_walk_two : ((dram_walk machine small (pos 2) bound).1.found_addrs 1).addr ≡ 1
unfolding dram_walk walk_dram do_page_walk clock_cycles clock_cycle clock_task run_entries to_int
    pte_callback_dram clock_finish clock_before clock_tasks
dram_walk_two = refl

-- Three pages of NVRAM, and one page of DRAM that is found twice: the entry behind the separator is
-- none of those found.
switch_walk_stale :
    ((switch_walk machine small (pos 3) (record bound { spaces = λ m. uneven })).1.found_addrs 3)
    ≡ entry 7
unfolding switch_walk rebalance reconstruct copy_back walk_nvram walk_dram do_page_walk clock_cycles
    clock_cycle clock_task run_entries to_int pte_callback_dram pte_callback_perfect_nvram
    clock_finish clock_before clock_tasks
switch_walk_stale = refl

clock_walks-IsAnswer_example :
    IsAnswer machine small (pos 3) (dram_walk machine small (pos 3) bound)
    × IsAnswer machine small (pos 3) (nvram_walk machine small (pos 3) bound)
clock_walks-IsAnswer_example = clock_walks-IsAnswer machine small (pos 3) bound refl

-- Three pages of NVRAM, the separator, and one page of DRAM.
abbrev three_and_one : ClockState Table
three_and_one = record bound { found_addrs = entry; n_found = 5 }

rebalance_stale_example :
    ((rebalance machine small 3 three_and_one).0 ≡ negsuc 0)
    × (((rebalance machine small 3 three_and_one).1.n_found ≡ 1 * 2 + 1)
        × (((i : ℕ) → i < 1 → (rebalance machine small 3 three_and_one).1.found_addrs i ≡ entry i)
            × ((i : ℕ)
                → i < 1
                → (rebalance machine small 3 three_and_one).1.found_addrs (1 + 1 + i)
                  ≡ entry (5 + 1 + i))))
rebalance_stale_example = rebalance_stale machine small 3 1 three_and_one refl (omega arith)
