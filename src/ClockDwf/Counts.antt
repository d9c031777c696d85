-- ===== src/ClockDwf/Counts.antt =====
-- No walk finds more pages than it was asked for.
use ambix.Base.{
  ℕ, zero, suc, ◌+◌, ◌-◌, ◌≤◌, ◌≡◌, ◌⊎◌, refl, ◌+ℤ◌, true, false, Option, none, some, ℤ, pos,
  pos_part, List, [], ◌∷◌, arith, Bool-cases, inl, inr, ltb,
}
use ambix.Kernel.{Kernel, Task}
use ambix.Controller.Migration.{to_int}
use ambix.ClockDwf.{
  Constants, ClockCallback, has_all, pte_callback_dram, pte_callback_force_nvram,
  pte_callback_perfect_nvram,
}
use ambix.ClockDwf.Walk.{
  State, run_entries, clock_task, clock_tasks, clock_before, clock_finish, clock_cycle, after_cycle,
  to_ulong, clock_cycles, do_page_walk, start_walk, walk_dram, walk_nvram, result_of, force_walk,
  dram_walk, nvram_walk,
}

module _ (k : Kernel) (constants : Constants) (n : ℤ) where
  -- The walk looks for `n` pages, and has not found more.
  abbrev pub Counted : State k constants → Type 0
  Counted s = (s.n_to_find ≡ n) × (s.n_found ≤ pos_part n)

  abbrev pub KeepsCount : ClockCallback k constants → Type 0
  KeepsCount cb =
      (m addr : ℕ) (e : Option k.Pte) (s : State k constants) → Counted s → Counted (cb m addr e s)

  dram-KeepsCount : KeepsCount (pte_callback_dram k constants)
  unfolding pte_callback_dram
  dram-KeepsCount m addr none s c = ground arith
  dram-KeepsCount m addr (some pte) s c = ground arith

  force_nvram-KeepsCount : KeepsCount (pte_callback_force_nvram k constants)
  unfolding pte_callback_force_nvram
  force_nvram-KeepsCount m addr none s c = ground arith
  force_nvram-KeepsCount m addr (some pte) s c = ground arith

  pub perfect_nvram-KeepsCount : KeepsCount (pte_callback_perfect_nvram k constants)
  unfolding pte_callback_perfect_nvram
  perfect_nvram-KeepsCount m addr none s c = ground arith
  perfect_nvram-KeepsCount m addr (some pte) s c = ground arith

  module _ (cb : ClockCallback k constants) (keeps : KeepsCount cb) where
    run_entries-Counted :
        (m : ℕ) (es : List (ℕ × Option k.Pte)) (s : State k constants)
        → Counted s
        → Counted (run_entries k constants cb m es s)
    unfolding run_entries
    run_entries-Counted m [] s c = c
    run_entries-Counted m ((addr, e) ∷ es) s c =
        run_entries-Counted m es (cb m addr e s) (keeps m addr e s c)

    clock_task-Counted :
        (i start end : ℕ) (s : State k constants)
        → Counted s
        → Counted (clock_task k constants cb i start end s)
    clock_task-Counted i start end s c = by_slot (s.pids.task_items i) refl
      where
        by_mm :
            (t : Task) (mm : Option ℕ)
            → s.pids.task_items i ≡ some t
            → t.mm ≡ mm
            → Counted (clock_task k constants cb i start end s)
        by_mm t none e f = unfold clock_task in rw (e, clock_task) (rw (f, clock_task) c)
        by_mm t (some m) e f =
            unfold clock_task in
            rw (e, clock_task)
              (rw (f, clock_task)
                (run_entries-Counted m (k.entries (s.spaces m) start end)
                  (record s { curr_pid = t.pid }) c))

        by_slot :
            (o : Option Task)
            → s.pids.task_items i ≡ o
            → Counted (clock_task k constants cb i start end s)
        by_slot none e = unfold clock_task in rw (e, clock_task) c
        by_slot (some t) e = by_mm t t.mm e refl

    clock_tasks-Counted :
        (rounds j : ℕ) (s : State k constants)
        → Counted s
        → Counted (clock_tasks k constants cb rounds j s).1
    unfolding clock_tasks
    clock_tasks-Counted zero j s c = c
    clock_tasks-Counted (suc rounds) j s c =
        let s' = clock_task k constants cb j 0 constants.max_address s in
        let c' = clock_task-Counted j 0 constants.max_address s c in
        let rest = clock_tasks-Counted rounds (j + 1) s' c' in
        elim (Bool-cases (has_all k constants s')) [
          | inl done ↦ rw done c'
          | inr more ↦ rw more rest
        ]

    clock_before-Counted :
        (last_pid : ℕ) (r : Option ℕ × State k constants)
        → Counted r.1
        → Counted (clock_before k constants cb last_pid r).1
    unfolding clock_before
    clock_before-Counted last_pid (some j, s) c = c
    clock_before-Counted last_pid (none, s) c = clock_tasks-Counted (last_pid - 1) 0 s c

    clock_finish-Counted :
        (last_pid : ℕ) (last_addr : ℤ) (r : Option ℕ × State k constants)
        → Counted r.1
        → Counted (clock_finish k constants cb last_pid last_addr r).1
    unfolding clock_finish
    clock_finish-Counted last_pid last_addr (some j, s) c = c
    clock_finish-Counted last_pid last_addr (none, s) c =
        clock_task-Counted last_pid 0 (to_ulong (last_addr +ℤ pos 1)) s c

    clock_cycle-Counted :
        (last_pid : ℕ) (last_addr : ℤ) (s : State k constants)
        → Counted s
        → Counted (clock_cycle k constants cb last_pid last_addr s).1
    unfolding clock_cycle
    clock_cycle-Counted last_pid last_addr s c =
        let s' = clock_task k constants cb last_pid (to_ulong last_addr) constants.max_address s in
        let c' = clock_task-Counted last_pid (to_ulong last_addr) constants.max_address s c in
        let after = clock_tasks-Counted (s'.pids.n_pids - (last_pid + 1)) (last_pid + 1) s' c' in
        let all =
          clock_finish-Counted last_pid last_addr _ (clock_before-Counted last_pid _ after) in
        elim (Bool-cases (has_all k constants s')) [
          | inl done ↦ rw done c'
          | inr more ↦ rw more all
        ]

    after-Counted :
        (r : Option ℕ × State k constants) (rest : ℕ × State k constants)
        → Counted r.1
        → Counted rest.1
        → Counted (after_cycle k constants r rest).1
    after-Counted (some j, s) rest c d = c
    after-Counted (none, s) rest c d = d

    clock_cycles-Counted :
        (n_cycles last_pid : ℕ) (last_addr : ℤ) (s : State k constants)
        → Counted s
        → Counted (clock_cycles k constants cb n_cycles last_pid last_addr s).1
    unfolding clock_cycles
    clock_cycles-Counted zero last_pid last_addr s c = c
    clock_cycles-Counted (suc n_cycles) last_pid last_addr s c =
        let r = clock_cycle k constants cb last_pid last_addr s in
        let c' = clock_cycle-Counted last_pid last_addr s c in
        let rest = clock_cycles-Counted n_cycles last_pid last_addr r.1 c' in
        elim (Bool-cases (ltb 0 s.pids.n_pids)) [
          | inl busy ↦ rw busy (after-Counted r _ c' rest)
          | inr idle ↦ rw idle c
        ]

    pub walk_nvram-Counted :
        (s : State k constants) → Counted s → Counted (walk_nvram k constants cb s)
    unfolding walk_nvram do_page_walk
    walk_nvram-Counted s c =
        clock_cycles-Counted 1 s.pids.last_pid_nvram (to_int s.pids.last_addr_nvram) s c

  pub walk_dram-Counted : (s : State k constants) → Counted s → Counted (walk_dram k constants s)
  unfolding walk_dram do_page_walk
  walk_dram-Counted s c =
      clock_cycles-Counted (pte_callback_dram k constants) dram-KeepsCount 2 s.pids.last_pid_dram
        (to_int s.pids.last_addr_dram) s c

  -- No more than the count asked for, and exactly that many where the result is 0.
  abbrev pub IsAnswer : ℤ × State k constants → Type 0
  IsAnswer r = (r.1.n_found ≤ pos_part n) × (r.0 ≡ pos 0 → r.1.n_found ≡ pos_part n)

  result-IsAnswer : (s : State k constants) → Counted s → IsAnswer (result_of k constants s)
  result-IsAnswer s c = (c.1, λ e. by_test (Bool-cases (has_all k constants s)) e)
    where
      by_test :
          (has_all k constants s ≡ true) ⊎ (has_all k constants s ≡ false)
          → (result_of k constants s).0 ≡ pos 0
          → s.n_found ≡ pos_part n
      by_test (inl all) e = ground (arith, all, c)
      by_test (inr few) e = let e' = rw few at e in ground (arith, e')

  force-IsAnswer : (s : State k constants) → Counted s → IsAnswer (force_walk k constants s)
  unfolding force_walk
  force-IsAnswer s c = by_test (Bool-cases (has_all k constants s))
    where
      by_test :
          (has_all k constants s ≡ true) ⊎ (has_all k constants s ≡ false)
          → IsAnswer (force_walk k constants s)
      by_test (inl done) = (ground (arith, done, c), λ e. ground (arith, done, c))
      by_test (inr more) = rw more (
          result-IsAnswer (walk_nvram k constants (pte_callback_force_nvram k constants) s)
            (walk_nvram-Counted (pte_callback_force_nvram k constants) force_nvram-KeepsCount s c))

  -- Whatever count is asked for, a negative one too, and whatever the pages are: `dram_walk` and
  -- `nvram_walk` find no more pages than that from a request's start on, and where they return 0
  -- exactly as many.
  pub clock_walks-IsAnswer :
      (s : State k constants)
      → s.n_found ≡ 0
      → IsAnswer (dram_walk k constants n s) × IsAnswer (nvram_walk k constants n s)
  unfolding dram_walk nvram_walk
  clock_walks-IsAnswer s empty =
      let start = start_walk k constants n s in
      let c : Counted start = (refl, omega (arith, empty)) in
      (
        result-IsAnswer (walk_dram k constants start) (walk_dram-Counted start c),
        force-IsAnswer (walk_nvram k constants (pte_callback_perfect_nvram k constants) start) (
            walk_nvram-Counted (pte_callback_perfect_nvram k constants) perfect_nvram-KeepsCount
              start c),
      )
