-- ===== src/Placement/Lifecycle.antt =====
-- src/ambix_hyb-mod.c: `_on_module_init`, and the states that the module reaches between requests
-- while the system runs on.
use native.Mathlib.Decide.{ℕ_discrete}
use ambix.Base.{
  ℕ, ◌≡◌, refl, sym, ◌∙◌, update, Bool, false, Option, some, ℤ, pos, arith, if◌then◌else◌,
}
use ambix.Config.{AddrInfo, Req}
use ambix.Kernel.{Kernel, Task, Processes}
use ambix.Placement.State.{State, Search, Pids}
use ambix.Placement.Pids.Invariant.{slot_pid, IsTask}
use ambix.Placement.Request.{process_req}
use ambix.Placement.Request.Bounds.{Valid, Answerable, process_req-Valid}

module _ (k : Kernel) where
  -- The module's memory when it is loaded: the counters have their initial values, the arrays from
  -- `kmalloc` hold what was there, and every allocation succeeds (the code tests none). The result is
  -- that of the initialiser, 1 if there is no netlink socket.
  unfoldable pub module_init :
      Bool → (ℕ → Option Task) → (ℕ → AddrInfo) → (ℕ → k.Space) → ℤ × State k.Space
  module_init nl_sock items memory spaces =
      let p : Pids = record {
        task_items = items;
        n_pids = 0;
        last_addr_dram = 0;
        last_addr_nvram = 0;
        last_pid_dram = 0;
        last_pid_nvram = 0;
      } in
      let q : Search = record {
        found_addrs = memory;
        backup_addrs = memory;
        switch_backup_addrs = memory;
        curr_pid = pos 0;
        n_to_find = pos 0;
        n_found = 0;
        n_backup = 0;
        n_switch_backup = 0;
        fault = false;
      } in
      (if nl_sock then pos 0 else pos 1, record { pids = p; search = q; spaces = spaces })

  -- The kernel changes a task's address space, when it ends or runs another program; its pid stays.
  abbrev pub remap : (ℕ → Option Task) → ℕ → Task → Option ℕ → ℕ → Option Task
  remap items i t mm = update items i (some (record t { mm = mm }))

  -- One step: a request that is answerable, a change of the page tables, or of a bound task's
  -- address space.
  pub data Step (s : State k.Space) : State k.Space → Type 0 where
    request :
        (ps : Processes) (req : Option Req)
        → ((pid : ℤ) (t : Task) → ps.get_pid_task pid ≡ some t → t.pid ≡ pid)
        → Answerable k ps req s
        → Step s (process_req k ps req s)
    run_processes : (spaces : ℕ → k.Space) → Step s (record s { spaces = spaces })
    change_mm :
        (i : ℕ) (t : Task) (mm : Option ℕ)
        → s.task_items i ≡ some t
        → Step s (record s { pids = record (s.pids) { task_items = remap s.task_items i t mm } })

  pub data Reach (s : State k.Space) : State k.Space → Type 0 where
    here : Reach s s
    next : {t u : State k.Space} → Reach s t → Step t u → Reach s u

  module_init-Valid :
      (sock : Bool) (items : ℕ → Option Task) (memory : ℕ → AddrInfo) (spaces : ℕ → k.Space)
      → Valid k (module_init sock items memory spaces).1
  unfolding module_init
  module_init-Valid sock items memory spaces = record {
    pids = record {
      dram_in = omega arith;
      nvram_in = omega arith;
      fits = omega arith;
      tasks = λ i h. absurd (omega arith);
      distinct = λ i j l h. absurd (omega arith);
    };
    backup = omega arith;
    switch_backup = omega arith;
    sound = refl;
  }

  remap-slot :
      (items : ℕ → Option Task) (i : ℕ) (t : Task) (mm : Option ℕ) (j : ℕ)
      → items i ≡ some t
      → (slot_pid (remap items i t mm j) ≡ slot_pid (items j))
        × (IsTask (items j) → IsTask (remap items i t mm j))
  remap-slot items i t mm j e = elim (ℕ_discrete i j) [
    | yes h ↦
        let old : items j ≡ some t = rw (← h) e in
        let new : remap items i t mm j ≡ some (record t { mm = mm }) = ground arith in
        rw (new, old) (refl, λ x. x)
    | no ne ↦ let same : remap items i t mm j ≡ items j = ground arith in rw same (refl, λ x. x)
  ]

  Step-Valid : {s t : State k.Space} → Step s t → Valid k s → Valid k t
  Step-Valid {s} (request ps req lookup a) v = (process_req-Valid k ps req s lookup v a).0
  Step-Valid (run_processes spaces) v = ground (arith, v)
  Step-Valid {s} (change_mm i t mm e) v = record {
    pids = record {
      dram_in = v.pids.dram_in;
      nvram_in = v.pids.nvram_in;
      fits = v.pids.fits;
      tasks = λ j h. (remap-slot s.task_items i t mm j e).1 (v.pids.tasks j h);
      distinct = λ j l lt h q.
          v.pids.distinct j l lt h (
            sym (remap-slot s.task_items i t mm j e).0
            ∙ q
            ∙ (remap-slot s.task_items i t mm l e).0);
    };
    backup = v.backup;
    switch_backup = v.switch_backup;
    sound = v.sound;
  }

  -- Every state that the module reaches from its load, through requests that are answerable, changes
  -- of the page tables and changes of a bound task's address space, is valid.
  pub Reach-Valid :
      (sock : Bool) (items : ℕ → Option Task) (memory : ℕ → AddrInfo) (spaces : ℕ → k.Space)
      {s : State k.Space}
      → Reach (module_init sock items memory spaces).1 s
      → Valid k s
  Reach-Valid sock items memory spaces here = module_init-Valid sock items memory spaces
  Reach-Valid sock items memory spaces (next r st) =
      Step-Valid st (Reach-Valid sock items memory spaces r)
