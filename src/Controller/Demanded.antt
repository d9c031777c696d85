-- ===== src/Controller/Demanded.antt =====
-- What a FIND moves, as a function of the page tables: the module's walk, its answer and the
-- controller's count put together.
use ambix.Base.{
  ℕ, ◌+◌, ◌<◌, ◌≡◌, refl, sym, ap, ◌∙◌, true, Bool, ◌||◌, some, Option, ℤ, pos, ◌==ℤ◌, ==ℤ_iff,
  List, ◌++◌, min, length, take, slice, length-slice, slice_ext, arith, Bool-cases, inl, inr,
  if◌then◌else◌,
}
use ambix.Config.{
  AddrInfo, Req, max_n_find, dram_mode, nvram_mode, nvram_write_mode, nvram_intensive_mode,
}
use ambix.Kernel.{Kernel, Processes, Task}
use ambix.Kernel.Tables.{TableLaws}
use ambix.Placement.State.{State}
use ambix.Placement.Pids.{refresh_pids}
use ambix.Placement.Callbacks.{pte_callback_mem}
use ambix.Placement.Walk.{walk_dram, mem_walk, start_search}
use ambix.Placement.Walk.TopUp.{backup_list}
use ambix.Placement.Walk.Selection.{
  found_list, is_idle_dram, is_intensive_nvram, is_other_nvram, is_written_nvram, is_read_nvram,
}
use ambix.Placement.Walk.Demand.{dram_cycle, nvram_cycle, mem_walk-dram, mem_walk-nvram}
use ambix.Placement.Request.Bounds.{Valid}
use ambix.Placement.Reply.{placement_nl_process_msg}
use ambix.Controller.Migration.{Os, Plan}
use ambix.Controller.Switch.{migrate_found, send_find}
use ambix.Controller.Searched.{IsMemMode, searched, stored, started, started-Fresh, searched-mem}
use ambix.Controller.Counted.{send_find-mem}

abbrev pub IsNvramMode : ℤ → Type 0
IsNvramMode mode =
    (mode ==ℤ nvram_mode || mode ==ℤ nvram_write_mode || mode ==ℤ nvram_intensive_mode) ≡ true

is_mode : (mode m : ℤ) → (mode ==ℤ m) ≡ true → mode ≡ m
is_mode mode m e = ground (arith, ==ℤ_iff mode m)

module _ (k : Kernel) where
  -- The pages that each mode falls back on.
  abbrev pub second_choice : ℤ → Option k.Pte → Bool
  second_choice mode =
      if mode ==ℤ nvram_mode
      then is_other_nvram k
      else if mode ==ℤ nvram_write_mode
      then is_written_nvram k
      else is_read_nvram k

  -- The pages of NVRAM that a mode wants, the hottest first.
  abbrev pub wanted : ℤ → State k.Space → List AddrInfo
  wanted mode s = nvram_cycle k (is_intensive_nvram k) s ++ nvram_cycle k (second_choice mode) s

module _ (k : Kernel) (laws : TableLaws k) (ps : Processes) (s : State k.Space)
    (lookup : (pid : ℤ) (t : Task) → ps.get_pid_task pid ≡ some t → t.pid ≡ pid) (v : Valid k s)
    (os : Os) (page_size : ℕ) (candidates : ℕ → AddrInfo) (memory : Plan) (w : os.World)
    (busy : 0 < (refresh_pids ps s.pids).n_pids) where
  -- The state in which the walk starts, with the processes that are alive.
  abbrev start : State k.Space
  start = started k ps s

  nvram-found :
      (n : ℕ) (mode : ℤ)
      → IsNvramMode mode
      → found_list k (mem_walk k (pos (min max_n_find n)) mode start).1
        ≡ take (min max_n_find n) (wanted k mode start)
  nvram-found n mode m =
      let found =
        mem_walk-nvram k laws (min max_n_find n) (omega arith) start busy
          (started-Fresh k ps s v) in
      elim (Bool-cases (mode ==ℤ nvram_mode)) [
        | inl e ↦ let same = is_mode mode nvram_mode e in rw same (found.0.0)
        | inr ne₀ ↦ elim (Bool-cases (mode ==ℤ nvram_write_mode)) [
          | inl e ↦ let same = is_mode mode nvram_write_mode e in rw same (found.1.0)
          | inr ne₁ ↦
              let same = is_mode mode nvram_intensive_mode (ground arith) in rw same (found.2.0)
        ]
      ]

  -- `send_find` migrates the pages of a list, which it has stored.
  abbrev Migrates : ℕ → ℤ → List AddrInfo → Type 0
  Migrates n mode pages =
      let answer = λ (r : Req). (placement_nl_process_msg k ps true (some r) s).0 in
      let out = stored k ps s candidates (pos n) mode in
      (send_find os page_size answer (max_n_find + 1) (pos n) mode candidates memory w
        ≡ migrate_found os page_size out mode (length pages) memory w)
      × (slice out 0 (length pages) ≡ pages)

  found-Migrates :
      (n : ℕ) (mode : ℤ) (pages : List AddrInfo)
      → IsMemMode mode
      → found_list k (mem_walk k (pos (min max_n_find n)) mode start).1 ≡ pages
      → Migrates n mode pages
  found-Migrates n mode pages m e =
      let t = searched k ps s (pos n) mode in
      let out = stored k ps s candidates (pos n) mode in
      let moved = send_find-mem k ps s lookup v os page_size candidates memory w n mode m in
      let same : found_list k t ≡ pages =
        ap (found_list k) (searched-mem k ps s n mode m (ground arith)) ∙ e in
      let count : t.n_found ≡ length pages =
        sym (length-slice t.found_addrs 0 t.n_found) ∙ ap length same in
      (
        moved.0 ∙ ap (λ c. migrate_found os page_size out mode c memory w) count,
        ap (slice out 0) (sym count)
            ∙ slice_ext out t.found_addrs 0 0 t.n_found
                (λ j l. let z : 0 + j ≡ j = omega arith in rw z ((moved.1 j l).0))
            ∙ same,
      )

  -- A FIND in the mode NVRAM, NVRAM write or NVRAM intensive, answered in a valid state with a process
  -- alive, where page tables do what is documented: `send_find` migrates the first of the pages that
  -- the mode wants, as many as were asked for or MAX_N_FIND if that is less. These are, by the page
  -- tables, the accessed and written pages of NVRAM, and behind them the mode's second choice, each in
  -- the order of one cycle over the processes alive from where the last walk stopped.
  pub send_find-wanted :
      (n : ℕ) (mode : ℤ)
      → IsNvramMode mode
      → Migrates n mode (take (min max_n_find n) (wanted k mode start))
  send_find-wanted n mode m = found-Migrates n mode _ (ground arith) (nvram-found n mode m)

  -- A FIND in the mode DRAM, likewise: `send_find` migrates the first of the idle pages of DRAM and,
  -- behind them, of those that the walk backed up.
  pub send_find-idle :
      (n : ℕ)
      → let walked =
          walk_dram k (pte_callback_mem k) (start_search k (pos (min max_n_find n)) start) in
        Migrates n dram_mode
          (take (min max_n_find n) (dram_cycle k (is_idle_dram k) start ++ backup_list k walked))
  send_find-idle n =
      found-Migrates n dram_mode _ refl
        (mem_walk-dram k laws (min max_n_find n) (omega arith) start busy
          (started-Fresh k ps s v)).0
