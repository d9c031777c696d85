-- ===== src/Controller/FindTests.antt =====
-- The theorems on what `send_find` counts, on concrete inputs.
use ambix.Base.{
  ◌++◌, ℕ, arith, ◌+◌, ◌≤◌, ◌<◌, ◌≡◌, refl, true, some, ℤ, pos, min, ◌*◌, ◌==◌, length, ltb, List,
  slice, take, ◌==ℤ◌, ◌||◌, if◌then◌else◌, none,
}
use ambix.Kernel.{Processes, Task}
use ambix.Placement.Pids.{refresh_pids, refresh_from}
use ambix.Placement.Paged.{paged, paged_laws, two_tasks, two_running}
use ambix.Placement.DemandTests.{two_running-Valid}
use ambix.Placement.Walk.Demand.{dram_cycle}
use ambix.Placement.Walk.Selection.{is_idle_dram}
use ambix.Placement.Walk.TopUp.{backup_list}
use ambix.Placement.Switch.Walks.{hot_pages, exchanged, dram_walked}
use ambix.Controller.Exchanged.{send_find-exchanged}
use ambix.Controller.Demanded.{wanted, send_find-wanted}
use ambix.Config.{
  AddrInfo, Req, contains, dram_mode, nvram_mode, switch_mode, max_n_find, max_n_switch,
  max_packets, sizeof_addr_info,
}
use ambix.Netlink.{Message}
use ambix.Placement.Machine.{machine, processes, blank, running, one_task}
use ambix.Placement.Tests.{find_two, find_two-Answerable, one_task-Valid, task-lookup}
use ambix.Placement.Walk.Named.{IsNamed, IsBoundPid}
use ambix.Placement.Reply.{placement_nl_process_msg}
use ambix.Controller.Switch.{migrate_found, send_find}
use ambix.Controller.Searched.{searched, stored, started}
use ambix.Controller.Counted.{send_find-mem, send_find-switch}
use ambix.Controller.Tests.{roomy, nothing}
use ambix.Controller.Buffers.{candidates_bytes, IsCut, entries_of, answer, answer-IsCut}

-- The candidates that the controller has after a FIND for two pages.
abbrev two_stored : ℤ → ℕ → AddrInfo
two_stored mode = stored machine processes (running (pos 0)) blank (pos 2) mode

send_find-mem_example :
    let answer =
      λ (r : Req). (placement_nl_process_msg machine processes true (some r) (running (pos 0))).0 in
    let t = searched machine processes (running (pos 0)) (pos 2) dram_mode in
    (send_find roomy 4096 answer (max_n_find + 1) (pos 2) dram_mode blank nothing 0
      ≡ migrate_found roomy 4096 (two_stored dram_mode) dram_mode t.n_found nothing 0)
    × ((j : ℕ)
        → j < t.n_found
        → (two_stored dram_mode j ≡ t.found_addrs j)
          × IsBoundPid (refresh_pids processes one_task) (two_stored dram_mode j).pid_retval)
send_find-mem_example =
    send_find-mem machine processes (running (pos 0)) task-lookup one_task-Valid roomy 4096 blank
      nothing 0 2 dram_mode refl

send_find-switch_example :
    let answer =
      λ (r : Req). (placement_nl_process_msg machine processes true (some r) (running (pos 0))).0 in
    (c : ℕ) × (c ≤ min max_n_switch 2)
    × (send_find roomy 4096 answer (max_n_find + 1) (pos 2) switch_mode blank nothing 0
        ≡ migrate_found roomy 4096 (two_stored switch_mode) switch_mode c nothing 0)
    × ((j : ℕ)
        → j < c
        → IsNamed (two_stored switch_mode j) × IsNamed (two_stored switch_mode (c + 1 + j)))
send_find-switch_example =
    send_find-switch machine processes (running (pos 0)) task-lookup one_task-Valid roomy 4096 blank
      nothing 0 2

-- What the module answers with pid 42 bound.
abbrev answers : Req → List Message
answers req = answer machine processes (running (pos 0)) req

answer-IsCut_example :
    IsCut (answers find_two)
    × (length (answers find_two) ≤ max_packets)
    × (ltb candidates_bytes (sizeof_addr_info * entries_of (answers find_two))
        ≡ (entries_of (answers find_two) == max_n_find + 1))
answer-IsCut_example =
    answer-IsCut machine processes (running (pos 0)) find_two task-lookup one_task-Valid
      find_two-Answerable

-- The processes that the kernel knows: pids 42 and 43, both bound.
abbrev two_processes : Processes
two_processes = record {
  find_get_pid = λ p. p ==ℤ pos 42 || p ==ℤ pos 43;
  get_pid_task = λ p.
      if p ==ℤ pos 42
      then two_tasks.task_items 0
      else if p ==ℤ pos 43
      then two_tasks.task_items 1
      else none;
}

two_processes-lookup : (pid : ℤ) (t : Task) → two_processes.get_pid_task pid ≡ some t → t.pid ≡ pid
two_processes-lookup pid t e = ground arith

-- Both are alive.
both_alive : 0 < (refresh_pids two_processes two_running.pids).n_pids
unfolding refresh_pids refresh_from
both_alive = omega arith

-- The candidates that the controller has after a FIND for three pages of them.
abbrev three_stored : ℤ → ℕ → AddrInfo
three_stored mode = stored paged two_processes two_running blank (pos 3) mode

send_find-wanted_example :
    let answer =
      λ (r : Req). (placement_nl_process_msg paged two_processes true (some r) two_running).0 in
    let pages =
      take (min max_n_find 3) (wanted paged nvram_mode (started paged two_processes two_running)) in
    (send_find roomy 4096 answer (max_n_find + 1) (pos 3) nvram_mode blank nothing 0
      ≡ migrate_found roomy 4096 (three_stored nvram_mode) nvram_mode (length pages) nothing 0)
    × (slice (three_stored nvram_mode) 0 (length pages) ≡ pages)
send_find-wanted_example =
    send_find-wanted paged paged_laws two_processes two_running two_processes-lookup
      two_running-Valid roomy 4096 blank nothing 0 both_alive 3 nvram_mode refl

-- A switch of one page finds one that is accessed and written.
some_hot :
    0
    < length (take (min max_n_switch 1) (hot_pages paged (started paged two_processes two_running)))
unfolding refresh_pids refresh_from contains
some_hot = omega arith

send_find-exchanged_example :
    let answer =
      λ (r : Req). (placement_nl_process_msg paged two_processes true (some r) two_running).0 in
    let start = started paged two_processes two_running in
    let out = stored paged two_processes two_running blank (pos 1) switch_mode in
    let c = exchanged paged (min max_n_switch 1) start in
    (send_find roomy 4096 answer (max_n_find + 1) (pos 1) switch_mode blank nothing 0
      ≡ migrate_found roomy 4096 out switch_mode c nothing 0)
    × (slice out 0 c ≡ take c (hot_pages paged start))
    × (slice out (c + 1) c
        ≡ take c (
            dram_cycle paged (is_idle_dram paged) start
            ++ backup_list paged (dram_walked paged (min max_n_switch 1) start)))
send_find-exchanged_example =
    send_find-exchanged paged paged_laws two_processes two_running two_processes-lookup
      two_running-Valid roomy 4096 blank nothing 0 both_alive 1 some_hot
