-- ===== src/Controller/Tests.antt =====
-- The theorems on concrete inputs.
use ambix.Base.{
  ℕ, [], ◌+◌, ◌<◌, ◌≤◌, ◌≡◌, refl, true, false, ℤ, pos, pos_part, leb_ℤ, some, ltb, if◌then◌else◌,
  arith,
}
use ambix.Config.{AddrInfo, Req, dram_mode, max_n_find}
use ambix.Placement.Machine.{machine, processes, blank, running}
use ambix.Placement.Tests.{find_two, find_two-Answerable, one_task-Valid, task-lookup}
use ambix.Placement.Request.Bounds.{process_req-Valid}
use ambix.Placement.Request.{process_req}
use ambix.Placement.Reply.{placement_nl_process_msg}
use ambix.Controller.Comm.{send_req}
use ambix.Controller.RoundTrip.{send_req-process_msg}
use ambix.Controller.Migration.{Os, Plan, do_migration, free_space_pages, to_int}
use ambix.Controller.Comm.{send_bind, send_unbind, bind_req, unbind_req}
use ambix.Placement.Pids.{is_invalid_pid, refresh_pids}
use ambix.Placement.Pids.View.{bound}
use ambix.Placement.Pids.Binding.{accepted, bound_after}
use ambix.Placement.Machine.{one_task}
use ambix.Controller.Bind.{answer_of, state_after, is_some, send_bind_lem, send_unbind_lem}
use ambix.Controller.Switch.{Side, switch_dram, switch_nvram, do_switch, send_find}
use ambix.Controller.Switched.{Counts, do_switch_lem}
use ambix.Controller.Exchange.{do_switch-full}
use ambix.Controller.Restart.{switch_restarts}
use ambix.Controller.Find.{send_find_lem}
use ambix.Controller.Migrated.{do_migration-no_failure}

send_req-process_msg_example :
    let s = running (pos 0) in
    let s' = process_req machine processes (some find_two) s in
    let answer = λ (r : Req). (placement_nl_process_msg machine processes true (some r) s).0 in
    ((send_req answer find_two blank).0 ≡ true)
    × ((j : ℕ)
        → (send_req answer find_two blank).1 j
          ≡ (if ltb j s'.n_found then s'.found_addrs j else blank j))
unfolding placement_nl_process_msg
send_req-process_msg_example =
    send_req-process_msg machine processes (running (pos 0)) find_two blank
      (process_req-Valid machine processes (some find_two) (running (pos 0)) task-lookup
        one_task-Valid find_two-Answerable).1

-- A system with 40960 bytes free on each node, where moving always works.
abbrev pub roomy : Os
roomy = record {
  World = ℕ;
  free_space_node = λ w node. 40960;
  move_pages = λ w pid addr dest. (false, w);
}

abbrev pub nothing : Plan
nothing = record { addr = λ i. 0; dest_nodes = λ i. 0; n_processed = 0 }

do_migration-no_failure_example :
    (w : ℕ) × (do_migration roomy 4096 blank dram_mode 25 nothing 0 ≡ some (10, w))
unfolding free_space_pages to_int
do_migration-no_failure_example =
    do_migration-no_failure roomy 4096 blank (λ w pid addr dest. refl) dram_mode 25 nothing 0

do_switch_lem_example :
    (r : ℤ × ℕ) × (do_switch roomy 4096 blank 3 nothing 0 ≡ some r) × (leb_ℤ r.0 (pos 6) ≡ true)
do_switch_lem_example = do_switch_lem roomy 4096 blank 3 nothing 0

ten_pages : (w node : ℕ) → 3 ≤ pos_part (free_space_pages roomy 4096 blank w node)
unfolding free_space_pages to_int
ten_pages w node = omega arith

do_switch-full_example : (w : ℕ) × (do_switch roomy 4096 blank 3 nothing 0 ≡ some (pos 6, w))
do_switch-full_example =
    do_switch-full roomy 4096 blank 3 (λ w pid addr dest. refl) ten_pages nothing 0

-- Two of three pages are done.
abbrev two_done : Side
two_done = record {
  plan = record nothing { n_processed = 2 };
  migrated = pos 2;
  e = 0;
  free = true;
}

-- The candidate at index i has address i.
abbrev numbered : ℕ → AddrInfo
numbered i = record { addr = i; pid_retval = pos 42 }

one_page : (node : ℕ) → 0 < pos_part (free_space_pages roomy 4096 numbered 0 node)
unfolding free_space_pages to_int
one_page node = omega arith

two_done-Counts : Counts roomy 4096 numbered 3 two_done
two_done-Counts = record { sum = refl; most = omega arith }

switch_restarts_example :
    (d : Side × ℕ) × (v : Side × ℕ) × (switch_dram roomy 4096 numbered 3 two_done 0 ≡ some d)
    × (switch_nvram roomy 4096 numbered 3 two_done 0 ≡ some v)
    × (d.0.plan.addr 2 ≡ 4)
    × (v.0.plan.addr 2 ≡ 2)
switch_restarts_example =
    switch_restarts roomy 4096 numbered 0 3 two_done two_done-Counts (omega arith) (one_page 0)
      (one_page 2)

send_find_lem_example :
    let answer =
      λ (r : Req). (placement_nl_process_msg machine processes true (some r) (running (pos 0))).0 in
    (r : ℤ × ℕ) × (send_find roomy 4096 answer (max_n_find + 1) (pos 2) dram_mode blank nothing 0
      ≡ some r)
send_find_lem_example =
    send_find_lem machine processes (running (pos 0)) task-lookup one_task-Valid roomy 4096 (pos 2)
      dram_mode blank nothing 0 find_two-Answerable

send_bind_lem_example :
    let s = running (pos 0) in
    (send_bind (answer_of machine processes s (pos 0) (pos 42)) (pos 0) (pos 42) blank
      ≡ is_some (accepted processes (pos 42) (bound (refresh_pids processes one_task))))
    × (bound (state_after machine processes s (pos 0) (pos 42) (bind_req (pos 42) (pos 0))).pids
        ≡ bound_after
            (bound (refresh_pids processes one_task))
            (accepted processes (pos 42) (bound (refresh_pids processes one_task))))
send_bind_lem_example = send_bind_lem machine processes (running (pos 0)) (pos 0) (pos 42) blank

send_unbind_lem_example :
    let s = running (pos 0) in
    (send_unbind (answer_of machine processes s (pos 0) (pos 42)) (pos 0) (pos 42) blank ≡ true)
    × (bound (state_after machine processes s (pos 0) (pos 42) (unbind_req (pos 42) (pos 0))).pids
        ≡ [])
unfolding is_invalid_pid
send_unbind_lem_example = send_unbind_lem machine processes (running (pos 0)) (pos 0) (pos 42) blank
