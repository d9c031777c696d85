-- ===== src/MixM/Tests.antt =====
-- The theorems on concrete inputs.
use ambix.Base.{◌+◌, ◌≡◌, refl, some, pos, [], ◌∷◌, none, arith}
use ambix.Config.{contains}
use ambix.Placement.State.{Pids}
use ambix.Placement.Machine.{machine, table, task, processes, running}
use ambix.Placement.Tests.{entry}
use ambix.Placement.Pids.{is_invalid_pid, find_slot}
use ambix.Placement.Walk.{walk_entries, do_page_walk}
use ambix.Placement.Walk.Selection.{found_list}
use ambix.MixM.Callbacks.{
  pte_callback_mem, pte_callback_nvram_force, pte_callback_nvram_write,
  pte_callback_nvram_intensive, pte_callback_nvram_switch,
}
use ambix.MixM.Selection.{mixm_first_fit}
use ambix.MixM.Pids.{max_pids, bind_pid, bind_pid-overflows}
use ambix.MixM.Walk.{do_page_walk as bare_walk}
use ambix.MixM.Same.{AllMapped, mem-KeepsTasks, do_page_walk_same}

mixm_first_fit_example :
    let s = running (pos 2) in
    (found_list machine (walk_entries machine (pte_callback_mem machine) 0 table s)
      ≡ entry 1 ∷ entry 3 ∷ [])
    × (found_list machine (walk_entries machine (pte_callback_nvram_force machine) 0 table s)
        ≡ entry 4 ∷ [])
    × (found_list machine (walk_entries machine (pte_callback_nvram_write machine) 0 table s)
        ≡ entry 4 ∷ [])
    × (found_list machine (walk_entries machine (pte_callback_nvram_intensive machine) 0 table s)
        ≡ entry 5 ∷ [])
    × (found_list machine (walk_entries machine (pte_callback_nvram_switch machine) 0 table s)
        ≡ entry 5 ∷ [])
unfolding contains
mixm_first_fit_example = mixm_first_fit machine 2 0 table (running (pos 2)) refl (omega arith)

-- Five processes are bound, with pids from 1 on.
abbrev full_list : Pids
full_list = record {
  task_items = λ i. some (record { pid = pos (i + 1); mm = some 0 });
  n_pids = 5;
  last_addr_dram = 0;
  last_addr_nvram = 0;
  last_pid_dram = 0;
  last_pid_nvram = 0;
}

absent : find_slot full_list.task_items (pos 42) 5 0 ≡ none
unfolding find_slot
absent = refl

bind_pid-overflows_example :
    ((bind_pid processes (pos 42) full_list).0 ≡ pos 0)
    × ((bind_pid processes (pos 42) full_list).1.task_items max_pids ≡ some task)
    × ((bind_pid processes (pos 42) full_list).1.n_pids ≡ max_pids + 1)
unfolding is_invalid_pid
bind_pid-overflows_example =
    bind_pid-overflows processes (pos 42) full_list task refl refl absent refl refl

one_task-AllMapped : AllMapped (running (pos 2))
one_task-AllMapped i l = let z : i ≡ 0 = omega arith in rw z (0, refl)

do_page_walk_same_example :
    bare_walk machine (pte_callback_mem machine) 0 0 (running (pos 2))
    ≡ do_page_walk machine (pte_callback_mem machine) 0 0 (running (pos 2))
do_page_walk_same_example =
    do_page_walk_same machine (pte_callback_mem machine) (mem-KeepsTasks machine) 0 0
      (running (pos 2)) one_task-AllMapped (omega arith)
