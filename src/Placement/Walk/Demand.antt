-- ===== src/Placement/Walk/Demand.antt =====
-- What `mem_walk` finds, as a function of the page tables: the pages of one cycle, those of the first
-- choice before those of the second.
use ambix.Base.{
  ℕ, ◌+◌, ◌-◌, ◌≤◌, ◌<◌, ◌≡◌, refl, sym, ap, ◌∙◌, Bool, Option, ℤ, pos, negsuc, List, [], ◌++◌,
  arith, take, length, length-slice, if◌then◌else◌, leb, min, take-nil, take_two, length-take,
  length-append,
}
use ambix.Config.{
  AddrInfo, max_n_find, dram_mode, nvram_mode, nvram_intensive_mode, nvram_write_mode,
}
use ambix.Kernel.{Kernel}
use ambix.Kernel.Tables.{TableLaws}
use ambix.Placement.State.{State}
use ambix.Placement.Callbacks.{Callback, pte_callback_mem}
use ambix.Placement.Callbacks.Bounds.{
  KeepsSafe, pte_callback_mem-KeepsSafe, pte_callback_nvram_force-KeepsSafe,
  pte_callback_nvram_write-KeepsSafe, pte_callback_nvram_intensive-KeepsSafe,
}
use ambix.Placement.Walk.{walk_dram, walk_nvram, start_search, top_up, mem_walk}
use ambix.Placement.Walk.Memory.{
  Ready, Fresh, walk_nvram-Ready, walk_dram-Ready, start_search-Ready,
}
use ambix.Placement.Walk.Selection.{
  Selects, found_list, is_idle_dram, is_intensive_nvram, mem-Selects, nvram_force-Selects,
  nvram_write-Selects, nvram_intensive-Selects,
}
use ambix.Placement.Walk.Offers.{cycle}
use ambix.Placement.Walk.Likeness.{
  mem-KeepsAlike, nvram_force-KeepsAlike, nvram_force-KeepsAlike_other, nvram_write-KeepsAlike,
  nvram_intensive-KeepsAlike,
}
use ambix.Placement.Walk.Alike.{KeepsAlike}
use ambix.Placement.Walk.Tally.{found_Tallies}
use ambix.Placement.Walk.Selection.{is_other_nvram, is_written_nvram, is_read_nvram}
use ambix.Placement.Walk.Walked.{walked-Has}
use ambix.Placement.Walk.Backup.{backup_Tallies}
use ambix.Placement.Walk.Backs.{
  Backs, backup_shelf, nvram_force-Backs, nvram_write-Backs, nvram_intensive-Backs,
}
use ambix.Placement.Walk.TopUp.{backup_list, top_up_lem}

module _ (k : Kernel) where
  -- The pages of the cycle that the walk of a tier goes through, that pass a test.
  abbrev pub dram_cycle : (Option k.Pte → Bool) → State k.Space → List AddrInfo
  dram_cycle test s = cycle k test s.spaces s.task_items s.n_pids s.last_pid_dram s.last_addr_dram

  abbrev pub nvram_cycle : (Option k.Pte → Bool) → State k.Space → List AddrInfo
  nvram_cycle test s =
      cycle k test s.spaces s.task_items s.n_pids s.last_pid_nvram s.last_addr_nvram

  -- The first `n` of the pages wanted are found, and the result is 0 exactly when there are so many.
  abbrev pub Answers : ℕ → List AddrInfo → ℤ × State k.Space → Type 0
  Answers n wanted r =
      (found_list k r.1 ≡ take n wanted)
      × (r.0 ≡ (if leb n (length wanted) then pos 0 else negsuc 0))

same_test : (n a b : ℕ) → min n a ≡ min n b → leb n a ≡ leb n b
same_test n a b h = ground arith

module _ (k : Kernel) (laws : TableLaws k) (n : ℕ) (h : n ≤ max_n_find) (s : State k.Space)
    (p : 0 < s.n_pids) (f : Fresh k s) where
  abbrev started : State k.Space
  started = start_search k (pos n) s

  started-Ready : Ready k 0 n started
  started-Ready = start_search-Ready k n s p f

  -- Nothing is found at first, and nothing backed up.
  started-found : found_list k started ≡ take n []
  started-found = rw (f.empty) (sym (take-nil n))

  -- The two lists that a walk leaves, put together by `top_up`.
  topped-Answers :
      (w : State k.Space) (first second : List AddrInfo)
      → Ready k 0 n w
      → found_list k w ≡ take n first
      → take (n - w.n_found) (backup_list k w) ≡ take (n - w.n_found) second
      → Answers k n (first ++ second) (top_up k w)
  topped-Answers w first second r found backup =
      let counted = length-slice w.found_addrs 0 w.n_found in
      let backed = length-slice w.backup_addrs 0 w.n_backup in
      let t = top_up_lem k n w r.bounded.target r.bounded.found in
      let same : take n (found_list k w ++ backup_list k w) ≡ take n (first ++ second) =
        take_two n (found_list k w) first (backup_list k w) second (omega (arith, r.bounded.found))
          found (rw counted backup) in
      let lengths =
        sym (length-take n (found_list k w ++ backup_list k w))
        ∙ ap length same
        ∙ length-take n (first ++ second) in
      let both = length-append (found_list k w) (backup_list k w) in
      let tests : leb n (w.n_found + w.n_backup) ≡ leb n (length (first ++ second)) =
        same_test n (w.n_found + w.n_backup) (length (first ++ second)) (omega arith) in
      (t.0 ∙ same, t.1 ∙ ap (λ q. if q then pos 0 else negsuc 0) tests)

  module _ (cb : Callback k) (keeps : KeepsSafe k 0 n cb)
      (sel : Selects k cb (is_intensive_nvram k)) (second : Option k.Pte → Bool)
      (bk : Backs k backup_shelf cb (is_intensive_nvram k) second)
      (alike : KeepsAlike k laws (is_intensive_nvram k) cb)
      (alike₂ : KeepsAlike k laws second cb) where
    nvram-Answers :
        Answers k n
          (nvram_cycle k (is_intensive_nvram k) s ++ nvram_cycle k second s)
          (top_up k (walk_nvram k cb started))
    nvram-Answers =
        let lt : s.last_pid_nvram < s.n_pids = omega (arith, f.pids.nvram_in) in
        topped-Answers (walk_nvram k cb started) _ _
          (walk_nvram-Ready k 0 n cb keeps started started-Ready)
          (walked-Has k laws (is_intensive_nvram k) 0 n cb keeps alike _ started started-Ready
            (found_Tallies k cb (is_intensive_nvram k) sel 0 n s.task_items s.n_pids) started-found
            s.last_pid_nvram s.last_addr_nvram lt)
          (walked-Has k laws second 0 n cb keeps alike₂ _ started started-Ready
            (backup_Tallies k cb (is_intensive_nvram k) second sel backup_shelf bk 0 n s.task_items
              s.n_pids)
            refl s.last_pid_nvram s.last_addr_nvram lt)

  dram-Answers :
      let w = walk_dram k (pte_callback_mem k) started in
      Answers k n (dram_cycle k (is_idle_dram k) s ++ backup_list k w) (top_up k w)
  dram-Answers =
      let lt : s.last_pid_dram < s.n_pids = omega (arith, f.pids.dram_in) in
      let keeps = pte_callback_mem-KeepsSafe k 0 n h in
      topped-Answers (walk_dram k (pte_callback_mem k) started) _ _
        (walk_dram-Ready k 0 n (pte_callback_mem k) keeps started started-Ready)
        (walked-Has k laws (is_idle_dram k) 0 n (pte_callback_mem k) keeps (mem-KeepsAlike k laws) _
          started started-Ready
          (found_Tallies k (pte_callback_mem k) (is_idle_dram k) (mem-Selects k) 0 n s.task_items
            s.n_pids)
          started-found s.last_pid_dram s.last_addr_dram lt)
        refl

  -- Where page tables do what is documented: a search of DRAM for `n` pages leaves the first `n` of
  -- the idle pages of DRAM, in the order of one cycle over the bound processes from where the last
  -- walk stopped, and behind them of those that the walk backed up. The result is 0 exactly when
  -- these are `n`.
  pub mem_walk-dram :
      Answers k n
        (dram_cycle k (is_idle_dram k) s
          ++ backup_list k (walk_dram k (pte_callback_mem k) started))
        (mem_walk k (pos n) dram_mode s)
  unfolding mem_walk
  mem_walk-dram = dram-Answers

  -- Where page tables do what is documented: a search of NVRAM for `n` pages leaves the first `n` of
  -- the accessed and written pages of NVRAM, in the order of one cycle over the bound processes from
  -- where the last walk stopped, and behind them, in the same order: in the mode NVRAM the other
  -- pages, in the mode NVRAM write those only written, in the mode NVRAM intensive those only
  -- accessed. The result is 0 exactly when these are `n`.
  pub mem_walk-nvram :
      let first = nvram_cycle k (is_intensive_nvram k) s in
      Answers k n (first ++ nvram_cycle k (is_other_nvram k) s) (mem_walk k (pos n) nvram_mode s)
      × Answers k n
          (first ++ nvram_cycle k (is_written_nvram k) s)
          (mem_walk k (pos n) nvram_write_mode s)
      × Answers k n
          (first ++ nvram_cycle k (is_read_nvram k) s)
          (mem_walk k (pos n) nvram_intensive_mode s)
  unfolding mem_walk
  mem_walk-nvram = (
    nvram-Answers _ (pte_callback_nvram_force-KeepsSafe k 0 n h) (nvram_force-Selects k) _
        (nvram_force-Backs k) (nvram_force-KeepsAlike k laws) (nvram_force-KeepsAlike_other k laws),
    nvram-Answers _ (pte_callback_nvram_write-KeepsSafe k 0 n h) (nvram_write-Selects k) _
        (nvram_write-Backs k) (nvram_write-KeepsAlike k laws _) (nvram_write-KeepsAlike k laws _),
    nvram-Answers _ (pte_callback_nvram_intensive-KeepsSafe k 0 n h) (nvram_intensive-Selects k) _
        (nvram_intensive-Backs k) (nvram_intensive-KeepsAlike k laws _)
        (nvram_intensive-KeepsAlike k laws _),
  )
