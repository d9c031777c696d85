-- ===== src/Placement/Tests.antt =====
-- The theorems on concrete inputs, and runs of the handlers.
use ambix.Base.{
  ℕ, zero, suc, ◌+◌, ◌≤◌, ◌≡◌, refl, true, false, none, some, ℤ, pos, negsuc, [], ◌∷◌, arith,
  length,
}
use ambix.Config.{AddrInfo, Req, contains, find_op, dram_mode, max_n_find}
use ambix.Kernel.{Task}
use ambix.Placement.State.{State}
use ambix.Placement.Machine.{
  machine, machine_laws, Table, Bits, page, table, task, processes, blank, one_task, running,
}
use ambix.Placement.Pids.{refresh_pids}
use ambix.Placement.Pids.View.{bound, refresh_pids_lem}
use ambix.Placement.Pids.Invariant.{IsWellFormed}
use ambix.Placement.Callbacks.{
  pte_callback_mem, pte_callback_nvram_force, pte_callback_nvram_write,
  pte_callback_nvram_intensive, pte_callback_nvram_switch, pte_callback_nvram_clear,
}
use ambix.Placement.Walk.{walk_entries, clear_walk}
use ambix.Placement.Walk.Memory.{Handled, Fresh}
use ambix.Placement.Walk.Clear.{clear_walk_faults, clear_keeps_young, mem_keeps_young}
use ambix.Placement.Walk.Selection.{found_list, candidates_of, is_idle_dram, mem-Selects}
use ambix.Placement.Walk.Negative.{negative_count_overflows}
use ambix.Placement.Walk.FirstFit.{dram_first_fit, nvram_first_fit}
use ambix.Placement.Switch.{switch_walk}
use ambix.Placement.Switch.Answer.{AtMost, switch_walk-Paired}
use ambix.Placement.Request.{process_req}
use ambix.Placement.Request.Bounds.{Valid, Answerable, process_req-Valid}
use ambix.Placement.Lifecycle.{module_init, Step, Reach, Reach-Valid}

one_task-IsWellFormed : IsWellFormed one_task
one_task-IsWellFormed = record {
  dram_in = omega arith;
  nvram_in = omega arith;
  fits = omega arith;
  tasks = λ i h. let z : i ≡ 0 = omega arith in rw z (omega arith);
  distinct = λ i j l h. absurd (omega arith);
}

one_task-Fresh : Fresh machine (running (pos 0))
one_task-Fresh = record {
  pids = one_task-IsWellFormed;
  empty = refl;
  backup = omega arith;
  switch_backup = omega arith;
  sound = refl;
}

pub one_task-Valid : Valid machine (running (pos 0))
one_task-Valid = record {
  pids = one_task-IsWellFormed;
  backup = omega arith;
  switch_backup = omega arith;
  sound = refl;
}

pub task-lookup : (pid : ℤ) (t : Task) → processes.get_pid_task pid ≡ some t → t.pid ≡ pid
task-lookup pid t e = ground arith

-- A request for two idle pages of DRAM.
abbrev pub find_two : Req
find_two = record { op_code = find_op; pid_n = pos 2; mode = dram_mode }

pub find_two-Answerable : Answerable machine processes (some find_two) (running (pos 0))
find_two-Answerable e = (_, λ c. absurd cc)

-- The entry of a page of pid 42.
abbrev pub entry : ℕ → AddrInfo
entry a = record { addr = a; pid_retval = pos 42 }

process_req-Valid_example :
    let s' = process_req machine processes (some find_two) (running (pos 0)) in
    Valid machine s' × (1 ≤ s'.n_found) × (s'.n_found ≤ max_n_find + 1)
process_req-Valid_example =
    process_req-Valid machine processes (some find_two) (running (pos 0)) task-lookup one_task-Valid
      find_two-Answerable

-- The module's state after it has been loaded and the processes have run.
abbrev loaded : State Table
loaded = (module_init machine true (λ i. none) blank (λ sp. [])).1

Reach-Valid_example : Valid machine (record loaded { spaces = λ sp. table })
Reach-Valid_example =
    Reach-Valid machine true (λ i. none) blank (λ sp. [])
      (Reach.next Reach.here (Step.run_processes (λ sp. table)))

switch_walk-Paired_example :
    let t = (switch_walk machine (pos 1) (running (pos 0))).1 in
    Handled machine t × AtMost machine 1 t.search
switch_walk-Paired_example =
    switch_walk-Paired machine 1 (running (pos 0)) (omega arith) (omega arith) one_task-Fresh

first_idle_pages :
    found_list machine (walk_entries machine (pte_callback_mem machine) 0 table (running (pos 2)))
    ≡ entry 1 ∷ entry 3 ∷ []
unfolding contains
first_idle_pages = dram_first_fit machine 2 0 table (running (pos 2)) refl (omega arith)

first_hot_pages :
    let s = running (pos 2) in
    (found_list machine (walk_entries machine (pte_callback_nvram_force machine) 0 table s)
      ≡ entry 4 ∷ [])
    × (found_list machine (walk_entries machine (pte_callback_nvram_write machine) 0 table s)
        ≡ entry 4 ∷ [])
    × (found_list machine (walk_entries machine (pte_callback_nvram_intensive machine) 0 table s)
        ≡ entry 4 ∷ [])
    × (found_list machine (walk_entries machine (pte_callback_nvram_switch machine) 0 table s)
        ≡ entry 4 ∷ [])
unfolding contains
first_hot_pages = nvram_first_fit machine 2 0 table (running (pos 2)) refl (omega arith)

refresh_pids_lem_example : bound (refresh_pids processes one_task) ≡ some task ∷ []
refresh_pids_lem_example = refresh_pids_lem processes one_task

-- The same task without an address space.
abbrev exited : Task
exited = record { pid = pos 42; mm = none }

abbrev with_exited : State Table
with_exited = record (running (pos 0)) { pids = record one_task { task_items = λ i. some exited } }

clear_walk_faults_example : (clear_walk machine with_exited).fault ≡ true
clear_walk_faults_example = clear_walk_faults machine with_exited 0 exited (omega arith) refl refl

abbrev written : Bits
written = record { present = true; write = true; young = true; dirty = true; nid = 2 }

clear_keeps_young_example :
    let s = running (pos 0) in
    let s' = (pte_callback_nvram_clear machine 0 4 (some written) s).1 in
    (q : Bits) × (s'.spaces 0 ≡ machine.commit (s.spaces 0) 4 q)
    × (q.young ≡ true)
    × (q.dirty ≡ false)
    × (s'.pids ≡ s.pids)
    × (s'.search ≡ s.search)
unfolding contains
clear_keeps_young_example =
    clear_keeps_young machine machine_laws 0 4 written (running (pos 0)) refl

abbrev in_use : Bits
in_use = record { present = true; write = true; young = true; dirty = false; nid = 0 }

mem_keeps_young_example :
    let s = running (pos 2) in
    let s' = (pte_callback_mem machine 0 2 (some in_use) s).1 in
    (q : Bits) × (s'.spaces 0 ≡ machine.commit (s.spaces 0) 2 q)
    × (q.young ≡ true)
    × (q.dirty ≡ false)
    × (s'.n_found ≡ s.n_found)
unfolding contains
mem_keeps_young_example =
    mem_keeps_young machine machine_laws 0 2 in_use (running (pos 2)) refl refl refl

-- So many idle pages of DRAM.
unfoldable many : ℕ → Table
many zero = []
many (suc n) = (n, page 0 false false) ∷ many n

length-many : (n : ℕ) → length (candidates_of machine (is_idle_dram machine) (pos 42) (many n)) ≡ n
unfolding many contains
length-many zero = refl
length-many (suc n) = omega (arith, length-many n)

negative_count_overflows_example :
    (walk_entries machine (pte_callback_mem machine) 0 (many 131073) (running (negsuc 0))).fault
    ≡ true
negative_count_overflows_example =
    negative_count_overflows machine (pte_callback_mem machine) (is_idle_dram machine)
      (mem-Selects machine) 0 0 (many 131073) (running (negsuc 0)) refl refl
      (omega (arith, length-many 131073))
