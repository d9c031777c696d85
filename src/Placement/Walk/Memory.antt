-- ===== src/Placement/Walk/Memory.antt =====
-- `mem_walk` and `clear_walk`: no write out of bounds, and the list of processes unchanged.
use ambix.Base.{
  ℕ, zero, suc, ◌+◌, ◌≤◌, ◌<◌, ◌≡◌, refl, false, ℤ, pos, arith, Bool-cases, inl, inr, ltb, ◌==ℤ◌,
}
use ambix.Config.{
  AddrInfo, max_n_find, max_n_switch, dram_mode, nvram_mode, nvram_intensive_mode, nvram_write_mode,
}
use ambix.Kernel.{Kernel}
use ambix.Placement.State.{State, Search, push_found}
use ambix.Placement.Pids.Invariant.{IsWellFormed}
use ambix.Placement.Callbacks.{Callback, pte_callback_mem}
use ambix.Placement.Callbacks.Bounds.{
  Bounded, Safe, KeepsSafe, pte_callback_mem-KeepsSafe, pte_callback_nvram_force-KeepsSafe,
  pte_callback_nvram_write-KeepsSafe, pte_callback_nvram_intensive-KeepsSafe,
}
use ambix.Placement.Walk.{
  walk_dram, walk_nvram, is_done, add_backups, top_up, top_up_rounds, start_search, mem_walk,
}
use ambix.Placement.Walk.Bounds.{do_page_walk-Safe}

-- The state between two steps of a request that looks for `n` pages.
pub record Ready (k : Kernel) (b n : ℕ) (s : State k.Space) : Type 0 where
  pub pids : IsWellFormed s.pids
  pub busy : 0 < s.n_pids
  pub bounded : Bounded b n s.search

module _ (k : Kernel) (b n : ℕ) where
  pub Ready-Safe : (s : State k.Space) → Ready k b n s → Safe k b n s.task_items s.n_pids s
  Ready-Safe s r = record {
    bounded = r.bounded;
    same_items = refl;
    same_count = refl;
    dram_in = r.pids.dram_in;
    nvram_in = r.pids.nvram_in;
  }

  -- A safe state with the same processes is ready again.
  Safe-Ready :
      (s t : State k.Space) → Ready k b n s → Safe k b n s.task_items s.n_pids t → Ready k b n t
  Safe-Ready s t r v = record {
    pids = record {
      dram_in = omega (arith, v.dram_in, v.same_count);
      nvram_in = omega (arith, v.nvram_in, v.same_count);
      fits = omega (arith, r.pids.fits, v.same_count);
      tasks = λ i h. rw v.same_items (r.pids.tasks i (omega (arith, v.same_count)));
      distinct = λ i j l h. rw v.same_items (r.pids.distinct i j l (omega (arith, v.same_count)));
    };
    busy = omega (arith, v.same_count, r.busy);
    bounded = v.bounded;
  }

  module _ (cb : Callback k) (keeps : KeepsSafe k b n cb) (s : State k.Space) where
    pub walk_dram-Ready : Ready k b n s → Ready k b n (walk_dram k cb s)
    walk_dram-Ready r =
        let w =
          do_page_walk-Safe k b n s.task_items s.n_pids r.pids.tasks cb keeps s.last_pid_dram
            s.last_addr_dram s (omega (arith, r.busy, r.pids.dram_in)) (Ready-Safe s r) in
        Safe-Ready s _ r (record {
          bounded = w.1.bounded;
          same_items = w.1.same_items;
          same_count = w.1.same_count;
          dram_in = omega (arith, w.0);
          nvram_in = w.1.nvram_in;
        })

    pub walk_nvram-Ready : Ready k b n s → Ready k b n (walk_nvram k cb s)
    walk_nvram-Ready r =
        let w =
          do_page_walk-Safe k b n s.task_items s.n_pids r.pids.tasks cb keeps s.last_pid_nvram
            s.last_addr_nvram s (omega (arith, r.busy, r.pids.nvram_in)) (Ready-Safe s r) in
        Safe-Ready s _ r (record {
          bounded = w.1.bounded;
          same_items = w.1.same_items;
          same_count = w.1.same_count;
          dram_in = w.1.dram_in;
          nvram_in = omega (arith, w.0);
        })

  push_found-Bounded :
      (s : Search) (e : AddrInfo)
      → n ≤ max_n_find
      → s.n_found < n
      → Bounded b n s
      → Bounded b n (push_found s e)
  push_found-Bounded s e h l b = ground arith

  pub add_backups-Ready :
      (rounds i : ℕ) (s : State k.Space)
      → n ≤ max_n_find
      → s.n_found + rounds ≤ n
      → Ready k b n s
      → Ready k b n (add_backups k rounds i s)
  unfolding add_backups
  add_backups-Ready zero i s h l r = r
  add_backups-Ready (suc rounds) i s h l r =
      let pushed = push_found-Bounded s.search (s.backup_addrs i) h (omega arith) r.bounded in
      add_backups-Ready rounds (i + 1) _ h (omega arith)
        (record { pids = r.pids; busy = r.busy; bounded = pushed })

  top_up_rounds-le : (s : State k.Space) → Ready k b n s → s.n_found + top_up_rounds k s ≤ n
  top_up_rounds-le s r = rw (r.bounded.target) (ground (arith, r.bounded.found))

  top_up-Ready : (s : State k.Space) → n ≤ max_n_find → Ready k b n s → Ready k b n (top_up k s).1
  unfolding top_up
  top_up-Ready s h r =
      let more : Ready k b n (add_backups k (top_up_rounds k s) 0 s) =
        add_backups-Ready (top_up_rounds k s) 0 s h (top_up_rounds-le s r) r in
      elim (Bool-cases (is_done k s)) [
        | inl done ↦ rw done r
        | inr short ↦ elim (Bool-cases (ltb 0 s.n_backup)) [
          | inl some_left ↦ rw (short, some_left) more
          | inr none_left ↦ rw (short, none_left) r
        ]
      ]

-- What holds when the work of a request is done: there is room for its result in `found_addrs`.
pub record Handled (k : Kernel) (s : State k.Space) : Type 0 where
  pub pids : IsWellFormed s.pids
  pub room : s.n_found ≤ max_n_find
  pub backup : s.n_backup ≤ max_n_find
  pub switch_backup : s.n_switch_backup ≤ max_n_switch
  pub sound : s.fault ≡ false

-- What holds when the work of a request begins.
pub record Fresh (k : Kernel) (s : State k.Space) : Type 0 where
  pub pids : IsWellFormed s.pids
  pub empty : s.n_found ≡ 0
  pub backup : s.n_backup ≤ max_n_find
  pub switch_backup : s.n_switch_backup ≤ max_n_switch
  pub sound : s.fault ≡ false

module _ (k : Kernel) where
  pub Fresh-Handled : (s : State k.Space) → Fresh k s → Handled k s
  Fresh-Handled s f = record {
    pids = f.pids;
    room = omega (arith, f.empty);
    backup = f.backup;
    switch_backup = f.switch_backup;
    sound = f.sound;
  }

  pub Ready-Handled : (b n : ℕ) (s : State k.Space) → n ≤ max_n_find → Ready k b n s → Handled k s
  Ready-Handled b n s h r = record {
    pids = r.pids;
    room = omega (arith, r.bounded.found);
    backup = r.bounded.backup;
    switch_backup = r.bounded.switch_backup;
    sound = r.bounded.sound;
  }

  pub start_search-Ready :
      (n : ℕ) (s : State k.Space)
      → 0 < s.n_pids
      → Fresh k s
      → Ready k 0 n (start_search k (pos n) s)
  start_search-Ready n s p f = record {
    pids = f.pids;
    busy = p;
    bounded = ground (arith, f.empty, f.backup, f.switch_backup, f.sound);
  }

  -- `mem_walk` for a count that is not negative stays in bounds in every mode.
  pub mem_walk-Handled :
      (n : ℕ) (mode : ℤ) (s : State k.Space)
      → n ≤ max_n_find
      → 0 < s.n_pids
      → Fresh k s
      → Handled k (mem_walk k (pos n) mode s).1
  unfolding mem_walk
  mem_walk-Handled n mode s h p f = by_mode
    where
      s0 : State k.Space
      s0 = start_search k (pos n) s

      nvram : (cb : Callback k) → KeepsSafe k 0 n cb → Handled k (top_up k (walk_nvram k cb s0)).1
      nvram cb keeps =
          Ready-Handled 0 n _ h (
            top_up-Ready k 0 n _ h
              (walk_nvram-Ready k 0 n cb keeps s0 (start_search-Ready n s p f)))

      dram : Handled k (top_up k (walk_dram k (pte_callback_mem k) s0)).1
      dram = Ready-Handled 0 n _ h (
          top_up-Ready k 0 n _ h (
            walk_dram-Ready k 0 n (pte_callback_mem k) (pte_callback_mem-KeepsSafe k 0 n h) s0
              (start_search-Ready n s p f)))

      by_mode : Handled k (mem_walk k (pos n) mode s).1
      by_mode = elim (Bool-cases (mode ==ℤ dram_mode)) [
        | inl e ↦ rw e dram
        | inr ne₀ ↦ elim (Bool-cases (mode ==ℤ nvram_mode)) [
          | inl e ↦ rw (ne₀, e) (nvram _ (pte_callback_nvram_force-KeepsSafe k 0 n h))
          | inr ne₁ ↦ elim (Bool-cases (mode ==ℤ nvram_intensive_mode)) [
            | inl e ↦ rw (ne₀, ne₁, e) (nvram _ (pte_callback_nvram_intensive-KeepsSafe k 0 n h))
            | inr ne₂ ↦ elim (Bool-cases (mode ==ℤ nvram_write_mode)) [
              | inl e ↦ rw (ne₀, ne₁, ne₂, e) (nvram _ (pte_callback_nvram_write-KeepsSafe k 0 n h))
              | inr ne₃ ↦ rw (ne₀, ne₁, ne₂, ne₃) (Fresh-Handled s f)
            ]
          ]
        ]
      ]
