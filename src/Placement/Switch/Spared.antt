-- ===== src/Placement/Switch/Spared.antt =====
-- What each of the two walks of `switch_walk` leaves to the other.
use ambix.Base.{ℕ, ◌<◌, ◌≡◌, Option, none, some, ℤ, arith}
use ambix.Kernel.{Kernel}
use ambix.Placement.State.{State}
use ambix.Placement.Callbacks.{Callback, pte_callback_mem, pte_callback_nvram_switch}
use ambix.Placement.Callbacks.Bounds.{Safe, KeepsSafe}
use ambix.Placement.Walk.{do_page_walk}
use ambix.Placement.Walk.Memory.{Ready, Ready-Safe}
use ambix.Placement.Walk.Bounds.{set_pid-Safe}
use ambix.Placement.Walk.Keeps.{set_pid, do_page_walk-Outside}

module _ (k : Kernel) where
  -- The walk of NVRAM leaves the page tables, and where the walk of DRAM goes on.
  pub record SparesDram (s t : State k.Space) : Type 0 where
    pub same_spaces : t.spaces ≡ s.spaces
    pub same_items : t.task_items ≡ s.task_items
    pub same_number : t.n_pids ≡ s.n_pids
    pub same_pid : t.last_pid_dram ≡ s.last_pid_dram
    pub same_addr : t.last_addr_dram ≡ s.last_addr_dram

  -- The walk of DRAM leaves the switch backup.
  pub record SparesBackup (s t : State k.Space) : Type 0 where
    pub same_backup : t.switch_backup_addrs ≡ s.switch_backup_addrs
    pub same_count : t.n_switch_backup ≡ s.n_switch_backup

  pub switch-SparesDram :
      (m addr : ℕ) (e : Option k.Pte) (s t : State k.Space)
      → SparesDram s t
      → SparesDram s (pte_callback_nvram_switch k m addr e t).1
  unfolding pte_callback_nvram_switch
  switch-SparesDram m addr none s t h = ground arith
  switch-SparesDram m addr (some pte) s t h = ground arith

  pub mem-SparesBackup :
      (m addr : ℕ) (e : Option k.Pte) (s t : State k.Space)
      → SparesBackup s t
      → SparesBackup s (pte_callback_mem k m addr e t).1
  unfolding pte_callback_mem
  mem-SparesBackup m addr none s t h = ground arith
  mem-SparesBackup m addr (some pte) s t h = ground arith

  module _ (b n : ℕ) (s : State k.Space) (r : Ready k b n s) (cb : Callback k)
      (keeps : KeepsSafe k b n cb) (Spares : State k.Space → Type 0)
      (spares : (m addr : ℕ) (e : Option k.Pte) (t : State k.Space)
        → Spares t
        → Spares (cb m addr e t).1)
      (enters : (t : State k.Space) (pid : ℤ) → Spares t → Spares (set_pid t pid)) where
    abbrev Both : State k.Space → Type 0
    Both t = Safe k b n s.task_items s.n_pids t × Spares t

    pub walk-Spares :
        Spares s
        → (last_pid last_addr : ℕ) → last_pid < s.n_pids
        → Spares (do_page_walk k cb last_pid last_addr s).1
    walk-Spares h last_pid last_addr lt =
        (do_page_walk-Outside k cb s.task_items s.n_pids Both Both
          (record {
            tasks = r.pids.tasks;
            same_items = λ t v. let safe = v.0 in safe.same_items;
            same_count = λ t v. let safe = v.0 in safe.same_count;
            enters = λ t i task l e v.
                (set_pid-Safe k b n s.task_items s.n_pids t task.pid v.0, enters t task.pid v.1);
            keeps = λ sp addr e t v.
                (keeps s.task_items s.n_pids sp addr e t v.0, spares sp addr e t v.1);
            leaves = λ t v. v;
          })
          last_pid last_addr s lt (Ready-Safe k b n s r, h)).1.1
