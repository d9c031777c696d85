-- ===== src/Placement/Pids.antt =====
-- src/ambix_hyb-mod.c: binding and unbinding processes, and dropping those that have ended.
pub mod View
pub mod Binding
pub mod Invariant
pub mod Slots
use ambix.Base.{
  ℕ, zero, suc, ◌+◌, ◌-◌, ◌≡◌, refl, Bool, true, false, not, ◌||◌, Option, none, some, ℤ, pos,
  negsuc, ◌==ℤ◌, leb_ℤ, ltb_ℤ, ltb, leb, ◌==◌, if◌then◌else◌, update,
}
use ambix.Config.{max_pids, max_pid_n}
use ambix.Kernel.{Task, Processes}
use ambix.Placement.State.{Pids}

-- `(task_items[i] != NULL) && (task_items[i]->pid == pid)`
abbrev pub holds : ℤ → Option Task → Bool
holds pid none = false
holds pid (some t) = t.pid ==ℤ pid

-- The search of both loops: the first slot from `i` on, of `rounds` slots, that holds the pid.
unfoldable pub find_slot : (ℕ → Option Task) → ℤ → ℕ → ℕ → Option ℕ
find_slot items pid zero i = none
find_slot items pid (suc rounds) i =
    let rest = find_slot items pid rounds (i + 1) in if holds pid (items i) then some i else rest

-- Binds the task in the next free slot.
abbrev pub append_task : Pids → Task → Pids
append_task p t = record p {
  task_items = update p.task_items p.n_pids (some t);
  n_pids = p.n_pids + 1;
}

-- The lookup of the pid's task, and its entry in the list.
abbrev pub add_target : Processes → Pids → ℤ → Bool × Pids
add_target ps p pid =
    if not (ps.find_get_pid pid)
    then (false, p)
    else elim (ps.get_pid_task pid) [ none ↦ (false, p) | some t ↦ (true, append_task p t) ]

pub find_target_process : Processes → Pids → ℤ → Bool × Pids
find_target_process ps p pid =
    if leb max_pids p.n_pids then (false, p) else elim (find_slot p.task_items pid p.n_pids 0) [
      | some i ↦ (false, p)
      | none ↦ add_target ps p pid
    ]

-- Where a walk goes on once slot `i` is gone: the slot and the address. `last + 1 == n_pids` is
-- the C code's `last == (n_pids-1)`.
pub resume_after : ℕ → ℕ → ℕ → ℕ → ℕ × ℕ
resume_after n_pids i last_pid last_addr =
    if ltb i last_pid
    then (last_pid - 1, last_addr)
    else if last_pid == i
    then (if last_pid + 1 == n_pids then 0 else last_pid, 0)
    else (last_pid, last_addr)

-- `for (j = i; j < n_pids - 1; j++) task_items[j] = task_items[j+1];` with so many rounds
pub shift_left : ℕ → ℕ → (ℕ → Option Task) → ℕ → Option Task
shift_left zero i items = items
shift_left (suc rounds) i items = shift_left rounds (i + 1) (update items i (items (i + 1)))

pub update_pid_list : ℕ → Pids → Pids
update_pid_list i p =
    let (dram, dram_addr) = resume_after p.n_pids i p.last_pid_dram p.last_addr_dram in
    let (nvram, nvram_addr) = resume_after p.n_pids i p.last_pid_nvram p.last_addr_nvram in
    record {
      task_items = shift_left (p.n_pids - 1 - i) i p.task_items;
      n_pids = p.n_pids - 1;
      last_addr_dram = dram_addr;
      last_addr_nvram = nvram_addr;
      last_pid_dram = dram;
      last_pid_nvram = nvram;
    }

-- `(task_items[i] == NULL) || (find_get_pid(task_items[i]->pid) == NULL)`, negated
abbrev pub is_alive : Processes → Option Task → Bool
is_alive ps none = false
is_alive ps (some t) = ps.find_get_pid t.pid

-- The loop of `refresh_pids` at index `i`. A round moves on or drops a slot, so `n_pids - i` rounds
-- are enough.
unfoldable pub refresh_from : Processes → ℕ → ℕ → Pids → Pids
refresh_from ps zero i p = p
refresh_from ps (suc fuel) i p =
    let kept = refresh_from ps fuel (i + 1) p in
    let dropped = refresh_from ps fuel i (update_pid_list i p) in
    if ltb i p.n_pids then (if is_alive ps (p.task_items i) then kept else dropped) else p

unfoldable pub refresh_pids : Processes → Pids → Pids
refresh_pids ps p = refresh_from ps p.n_pids 0 p

-- `(pid <= 0) || (pid > MAX_PID_N)`
unfoldable pub is_invalid_pid : ℤ → Bool
is_invalid_pid pid = leb_ℤ pid (pos 0) || ltb_ℤ (pos max_pid_n) pid

pub bind_pid : Processes → ℤ → Pids → ℤ × Pids
bind_pid ps pid p =
    if is_invalid_pid pid
    then (negsuc 0, p)
    else let (done, p') = find_target_process ps p pid in (if done then pos 0 else negsuc 0, p')

pub unbind_pid : ℤ → Pids → ℤ × Pids
unbind_pid pid p =
    if is_invalid_pid pid then (negsuc 0, p) else elim (find_slot p.task_items pid p.n_pids 0) [
      | none ↦ (negsuc 0, p)
      | some i ↦ (pos 0, update_pid_list i p)
    ]
