-- ===== src/ClockDwf/Request.antt =====
-- src/tests/clock-dwf/clockdwf-mod.c: binding and unbinding processes, `process_req` and
-- `placement_nl_process_msg`. The names that its header leaves open are a parameter. The slots in
-- use are never null, since `for_each_process` has filled them.
use ambix.Base.{
  ℕ, zero, suc, ◌+◌, ◌-◌, ◌*◌, Bool, true, false, ◌||◌, Option, none, some, ℤ, pos, negsuc, leb_ℤ,
  ltb_ℤ, ltb, ◌==ℤ◌, if◌then◌else◌, update, List, [], ◌∷◌, slice,
}
use ambix.Config.{AddrInfo, Req}
use ambix.Kernel.{Kernel, Task}
use ambix.Netlink.{Message, part, done}
use ambix.Placement.State.{Pids}
use ambix.Placement.Pids.{find_slot, update_pid_list}
use ambix.ClockDwf.{Constants}
use ambix.ClockDwf.Walk.{State, dram_walk, nvram_walk, switch_walk}

-- What the code uses of a header beside its callbacks and walks.
pub record Codes : Type 0 where
  pub max_pids : ℕ
  pub max_pid_n : ℕ
  pub max_n_per_packet : ℕ
  pub find_op : ℤ
  pub bind_op : ℤ
  pub unbind_op : ℤ
  pub dram_mode : ℤ
  pub nvram_mode : ℤ
  pub switch_mode : ℤ

-- What `for_each_process` goes through: the processes in order, and `init_task`, which ends it.
pub record TaskList : Type 0 where
  pub init_task : Task
  pub tasks : List Task

-- `for_each_process(p) if (p->pid == pid) …`: whether the pid was found, and what `p` is left at.
unfoldable pub scan_tasks : Task → ℤ → List Task → Bool × Task
scan_tasks init_task pid [] = (false, init_task)
scan_tasks init_task pid (t ∷ ts) =
    let rest = scan_tasks init_task pid ts in if t.pid ==ℤ pid then (true, t) else rest

-- `task_items[n_pids]` is the variable of the loop, so it is written also where no process is found.
unfoldable pub scan_into_slot : TaskList → ℤ → Pids → Bool × Pids
scan_into_slot list pid p =
    let r = scan_tasks list.init_task pid list.tasks in
    let p' = record p { task_items = update p.task_items p.n_pids (some (r.1)) } in
    if r.0 then (true, record p' { n_pids = p.n_pids + 1 }) else (false, p')

module _ (codes : Codes) where
  unfoldable pub find_target_process : TaskList → ℤ → Pids → Bool × Pids
  find_target_process list pid p =
      if ltb codes.max_pids p.n_pids
      then (false, p)
      else elim (find_slot p.task_items pid p.n_pids 0) [
        | some i ↦ (false, p)
        | none ↦ scan_into_slot list pid p
      ]

  -- `(pid <= 0) || (pid > MAX_PID_N)`
  abbrev pub is_invalid_pid : ℤ → Bool
  is_invalid_pid pid = leb_ℤ pid (pos 0) || ltb_ℤ (pos codes.max_pid_n) pid

  unfoldable pub bind_pid : TaskList → ℤ → Pids → ℤ × Pids
  bind_pid list pid p =
      let r = find_target_process list pid p in
      if is_invalid_pid pid then (negsuc 0, p) else (if r.0 then pos 0 else negsuc 0, r.1)

  unfoldable pub unbind_pid : ℤ → Pids → ℤ × Pids
  unbind_pid pid p =
      if is_invalid_pid pid then (negsuc 0, p) else elim (find_slot p.task_items pid p.n_pids 0) [
        | none ↦ (negsuc 0, p)
        | some i ↦ (pos 0, update_pid_list i p)
      ]

  -- The messages from number `i` on, with fuel for those that are not the last.
  unfoldable pub put_packets : (ℕ → AddrInfo) → ℕ → ℕ → ℕ → List Message
  put_packets found_addrs n_found zero i =
      done (slice found_addrs (i * codes.max_n_per_packet) (n_found - i * codes.max_n_per_packet))
      ∷ []
  put_packets found_addrs n_found (suc fuel) i =
      let rest = put_packets found_addrs n_found fuel (i + 1) in
      if ltb (i * codes.max_n_per_packet + codes.max_n_per_packet) n_found
      then part (slice found_addrs (i * codes.max_n_per_packet) codes.max_n_per_packet) ∷ rest
      else done
          (slice found_addrs (i * codes.max_n_per_packet) (n_found - i * codes.max_n_per_packet))
        ∷ []

  module _ (k : Kernel) (constants : Constants) where
    -- The inner `switch(req->mode)`.
    unfoldable pub find_pages : Req → State k constants → ℤ × State k constants
    find_pages req s =
        if req.mode ==ℤ codes.dram_mode
        then dram_walk k constants req.pid_n s
        else if req.mode ==ℤ codes.nvram_mode
        then nvram_walk k constants req.pid_n s
        else if req.mode ==ℤ codes.switch_mode
        then switch_walk k constants req.pid_n s
        else (negsuc 0, s)

    abbrev pub with_pids : ℤ × Pids → State k constants → ℤ × State k constants
    with_pids r s = (r.0, record s { pids = r.1 })

    -- The outer `switch(req->op_code)`.
    unfoldable pub dispatch : TaskList → Req → State k constants → ℤ × State k constants
    dispatch list req s =
        if req.op_code ==ℤ codes.find_op
        then find_pages req s
        else if req.op_code ==ℤ codes.bind_op
        then with_pids (bind_pid list req.pid_n s.pids) s
        else if req.op_code ==ℤ codes.unbind_op
        then with_pids (unbind_pid req.pid_n s.pids) s
        else (negsuc 0, s)

    -- `found_addrs[n_found++].pid_retval = ret;`
    unfoldable pub put_result : ℤ × State k constants → State k constants
    put_result r = record (r.1) {
      found_addrs =
          update r.1.found_addrs r.1.n_found
            (record (r.1.found_addrs r.1.n_found) { pid_retval = r.0 });
      n_found = r.1.n_found + 1;
    }

    unfoldable pub process_req : TaskList → Option Req → State k constants → State k constants
    process_req list none s = put_result (negsuc 0, record s { n_found = 0 })
    process_req list (some req) s = put_result (dispatch list req (record s { n_found = 0 }))

    -- Handles a message: the messages sent back, none without a buffer, and the new state.
    unfoldable pub placement_nl_process_msg :
        TaskList → Bool → Option Req → State k constants → List Message × State k constants
    placement_nl_process_msg list allocated req s =
        let s' = process_req list req s in
        (if allocated then put_packets s'.found_addrs s'.n_found s'.n_found 0 else [], s')
