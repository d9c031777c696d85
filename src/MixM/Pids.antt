-- ===== src/MixM/Pids.antt =====
-- src/ambix-MixM/ambix_MixM-mod.c: binding a process, where the variant tests the bound of the list
-- one too late.
use ambix.Base.{
  ℕ, ◌+◌, ◌≡◌, Bool, false, true, none, some, ℤ, pos, negsuc, ltb, if◌then◌else◌, arith,
}
use ambix.Kernel.{Task, Processes}
use ambix.Placement.State.{Pids}
use ambix.Placement.Pids.{find_slot, add_target, is_invalid_pid}

abbrev pub max_pids : ℕ
max_pids = 5

unfoldable pub find_target_process : Processes → Pids → ℤ → Bool × Pids
find_target_process ps p pid =
    if ltb max_pids p.n_pids then (false, p) else elim (find_slot p.task_items pid p.n_pids 0) [
      | some i ↦ (false, p)
      | none ↦ add_target ps p pid
    ]

unfoldable pub bind_pid : Processes → ℤ → Pids → ℤ × Pids
bind_pid ps pid p =
    if is_invalid_pid pid
    then (negsuc 0, p)
    else let (done, p') = find_target_process ps p pid in (if done then pos 0 else negsuc 0, p')

-- On a full list, whose slots are the whole array, a valid pid that is not bound and that the
-- kernel knows is bound in the slot behind the array.
pub bind_pid-overflows :
    (ps : Processes) (pid : ℤ) (p : Pids) (t : Task)
    → is_invalid_pid pid ≡ false
    → p.n_pids ≡ max_pids
    → find_slot p.task_items pid p.n_pids 0 ≡ none
    → ps.find_get_pid pid ≡ true
    → ps.get_pid_task pid ≡ some t
    → ((bind_pid ps pid p).0 ≡ pos 0)
      × ((bind_pid ps pid p).1.task_items max_pids ≡ some t)
      × ((bind_pid ps pid p).1.n_pids ≡ max_pids + 1)
unfolding bind_pid find_target_process
bind_pid-overflows ps pid p t good full absent known e = ground arith
