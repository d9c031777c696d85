-- ===== src/Placement/Walk/Answer.antt =====
-- What `mem_walk` leaves for the controller: pages that are named, and its result.
use ambix.Base.{
  ℕ, zero, suc, ◌+◌, ◌≤◌, ◌<◌, ◌≡◌, refl, some, ℤ, pos, ◌==ℤ◌, arith, Bool-cases, inl, inr, ltb,
}
use ambix.Config.{
  AddrInfo, max_n_find, dram_mode, nvram_mode, nvram_intensive_mode, nvram_write_mode,
}
use ambix.Kernel.{Kernel, Task}
use ambix.Placement.State.{State, push_found}
use ambix.Placement.Callbacks.{
  Callback, pte_callback_mem, pte_callback_nvram_force, pte_callback_nvram_intensive,
  pte_callback_nvram_write,
}
use ambix.Placement.Callbacks.Bounds.{
  KeepsSafe, pte_callback_mem-KeepsSafe, pte_callback_nvram_force-KeepsSafe,
  pte_callback_nvram_write-KeepsSafe, pte_callback_nvram_intensive-KeepsSafe,
}
use ambix.Placement.Walk.{
  walk_dram, walk_nvram, add_backups, top_up_rounds, is_done, top_up, start_search, mem_walk,
}
use ambix.Placement.Walk.Memory.{Ready, Fresh, Ready-Safe, start_search-Ready}
use ambix.Placement.Walk.Named.{
  IsBoundPid, tasks-IsPositive, AllNamed, push_found-AllNamed, KeepsNamed, do_page_walk-AllNamed,
  mem-KeepsNamed, nvram_force-KeepsNamed, nvram_write-KeepsNamed, nvram_intensive-KeepsNamed,
}

module _ (k : Kernel) (P : ℤ → Type 0) (b n x y : ℕ) (f : ℕ → AddrInfo) where
  module _ (cb : Callback k) (keeps : KeepsSafe k b n cb) (names : KeepsNamed k cb)
      (s : State k.Space)
      (named : (i : ℕ) (t : Task) → i < s.n_pids → s.task_items i ≡ some t → P t.pid) where
    pub walk_dram-AllNamed :
        Ready k b n s → AllNamed P b x y f s.search → AllNamed P b x y f (walk_dram k cb s).search
    walk_dram-AllNamed r a =
        let w =
          do_page_walk-AllNamed k P b n x y f s.task_items s.n_pids r.pids.tasks cb keeps names
            named s.last_pid_dram s.last_addr_dram s (omega (arith, r.busy, r.pids.dram_in))
            (Ready-Safe k b n s r, a) in
        w.1.1

    pub walk_nvram-AllNamed :
        Ready k b n s → AllNamed P b x y f s.search → AllNamed P b x y f (walk_nvram k cb s).search
    walk_nvram-AllNamed r a =
        let w =
          do_page_walk-AllNamed k P b n x y f s.task_items s.n_pids r.pids.tasks cb keeps names
            named s.last_pid_nvram s.last_addr_nvram s (omega (arith, r.busy, r.pids.nvram_in))
            (Ready-Safe k b n s r, a) in
        w.1.1

module _ (k : Kernel) (P : ℤ → Type 0) (y : ℕ) (f : ℕ → AddrInfo) where
  add_backups-AllNamed :
      (rounds i : ℕ) (s : State k.Space)
      → i + rounds ≤ s.n_backup
      → AllNamed P 0 0 y f s.search
      → AllNamed P 0 0 y f (add_backups k rounds i s).search
  unfolding add_backups
  add_backups-AllNamed zero i s h a = a
  add_backups-AllNamed (suc rounds) i s h a =
      let named = a.backup i (omega arith) (omega arith) in
      let pushed =
        push_found-AllNamed P 0 0 y f s.search (s.backup_addrs i) named (omega arith) a in
      add_backups-AllNamed rounds (i + 1)
        (record s { search = push_found s.search (s.backup_addrs i) }) (omega arith) pushed

  top_up-AllNamed :
      (s : State k.Space) → AllNamed P 0 0 y f s.search → AllNamed P 0 0 y f (top_up k s).1.search
  unfolding top_up
  top_up-AllNamed s a =
      let more = add_backups-AllNamed (top_up_rounds k s) 0 s (omega arith) a in
      elim (Bool-cases (is_done k s)) [
        | inl done ↦ rw done a
        | inr short ↦ elim (Bool-cases (ltb 0 s.n_backup)) [
          | inl some_left ↦ rw (short, some_left) more
          | inr none_left ↦ rw (short, none_left) a
        ]
      ]

module _ (k : Kernel) (n : ℕ) (s : State k.Space) (h : n ≤ max_n_find) (p : 0 < s.n_pids)
    (f : Fresh k s) where
  abbrev started : State k.Space
  started = start_search k (pos n) s

  started-AllNamed : AllNamed (IsBoundPid s.pids) 0 0 s.n_switch_backup s.found_addrs started.search
  started-AllNamed = record {
    kept = λ i l. absurd (omega arith);
    found = λ i b l. absurd (omega (arith, f.empty));
    backup = λ i b l. absurd (omega arith);
    switch_backup = λ i b l. absurd (omega arith);
  }

  bound_named :
      (i : ℕ) (t : Task) → i < s.n_pids → s.task_items i ≡ some t → IsBoundPid s.pids t.pid
  bound_named i t lt e =
      (tasks-IsPositive s.task_items s.n_pids f.pids.tasks i t lt e, (i, t, lt, e, refl))

  abbrev FoundNamed : State k.Space → Type 0
  FoundNamed t = (i : ℕ) → i < t.n_found → IsBoundPid s.pids (t.found_addrs i).pid_retval

  found_named :
      (t : State k.Space)
      → AllNamed (IsBoundPid s.pids) 0 0 s.n_switch_backup s.found_addrs t.search
      → FoundNamed t
  found_named t a i l = a.found i (omega arith) l

  nvram_named :
      (cb : Callback k)
      → KeepsSafe k 0 n cb
      → KeepsNamed k cb
      → FoundNamed (top_up k (walk_nvram k cb started)).1
  nvram_named cb keeps names = found_named (top_up k (walk_nvram k cb started)).1 (
      top_up-AllNamed k (IsBoundPid s.pids) s.n_switch_backup s.found_addrs
        (walk_nvram k cb started)
        (walk_nvram-AllNamed k (IsBoundPid s.pids) 0 n 0 s.n_switch_backup s.found_addrs cb keeps
          names started bound_named (start_search-Ready k n s p f) started-AllNamed))

  dram_named : FoundNamed (top_up k (walk_dram k (pte_callback_mem k) started)).1
  dram_named = found_named (top_up k (walk_dram k (pte_callback_mem k) started)).1 (
      top_up-AllNamed k (IsBoundPid s.pids) s.n_switch_backup s.found_addrs
        (walk_dram k (pte_callback_mem k) started)
        (walk_dram-AllNamed k (IsBoundPid s.pids) 0 n 0 s.n_switch_backup s.found_addrs
          (pte_callback_mem k) (pte_callback_mem-KeepsSafe k 0 n h) (mem-KeepsNamed k) started
          bound_named (start_search-Ready k n s p f) started-AllNamed))

  mem_walk-FoundNamed : (mode : ℤ) → FoundNamed (mem_walk k (pos n) mode s).1
  unfolding mem_walk
  mem_walk-FoundNamed mode = elim (Bool-cases (mode ==ℤ dram_mode)) [
    | inl e ↦ rw e dram_named
    | inr ne₀ ↦ elim (Bool-cases (mode ==ℤ nvram_mode)) [
      | inl e ↦
          rw (ne₀, e)
            (nvram_named (pte_callback_nvram_force k) (pte_callback_nvram_force-KeepsSafe k 0 n h)
              (nvram_force-KeepsNamed k))
      | inr ne₁ ↦ elim (Bool-cases (mode ==ℤ nvram_intensive_mode)) [
        | inl e ↦
            rw (ne₀, ne₁, e)
              (nvram_named (pte_callback_nvram_intensive k)
                (pte_callback_nvram_intensive-KeepsSafe k 0 n h) (nvram_intensive-KeepsNamed k))
        | inr ne₂ ↦ elim (Bool-cases (mode ==ℤ nvram_write_mode)) [
          | inl e ↦
              rw (ne₀, ne₁, ne₂, e)
                (nvram_named (pte_callback_nvram_write k)
                  (pte_callback_nvram_write-KeepsSafe k 0 n h) (nvram_write-KeepsNamed k))
          | inr ne₃ ↦ rw (ne₀, ne₁, ne₂, ne₃) (λ i l. absurd (omega (arith, f.empty)))
        ]
      ]
    ]
  ]

  -- Each entry that `mem_walk` finds, in any mode, carries the pid of a bound process.
  pub mem_walk-IsBoundPid :
      (mode : ℤ) (i : ℕ)
      → i < (mem_walk k (pos n) mode s).1.n_found
      → IsBoundPid s.pids ((mem_walk k (pos n) mode s).1.found_addrs i).pid_retval
  mem_walk-IsBoundPid mode = mem_walk-FoundNamed mode
