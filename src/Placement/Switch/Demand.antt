-- ===== src/Placement/Switch/Demand.antt =====
-- What `switch_walk` leaves, as a function of the page tables.
use ambix.Base.{
  ℕ, ◌+◌, ◌-◌, ◌*◌, ◌≤◌, ◌<◌, ◌≡◌, refl, sym, ap, ap₂, ◌∙◌, pos, ◌++◌, arith, take, take_less,
  take-take_first, slice_split, slice_at, slice, slice_ext, slice-join, length, length-slice,
  length-take, length-append, min, ◌==◌, ◌&&◌, false, ◌<◌,
}
use ambix.Config.{max_n_switch}
use ambix.Kernel.{Kernel}
use ambix.Kernel.Tables.{TableLaws}
use ambix.Placement.State.{State}
use ambix.Placement.Walk.Memory.{Fresh}
use ambix.Placement.Walk.Selection.{found_list, is_idle_dram}
use ambix.Placement.Walk.TopUp.{backup_list}
use ambix.Placement.Walk.Demand.{dram_cycle}
use ambix.Placement.Switch.{start_dram, separate, balance, switch_rest, switch_walk}
use ambix.Placement.Switch.Bounds.{balanced}
use ambix.Placement.Switch.Layout.{Layout, balance-Layout, nvram_page, dram_page}
use ambix.Placement.Switch.Walks.{
  switch_list, exchanged, hot_pages, nvram_walked, dram_walked, nvram_walked-Ready,
  nvram_walked-hot, second, dram_walked-Ready, dram_walked-found, dram_walked-SparesBackup,
}

balanced_bounds :
    (k : Kernel) (nvram d n_backup n_switch first n : ℕ)
    → n_switch ≡ first
    → nvram ≤ n
    → d ≤ min (nvram + first) n
    → let c = balanced k nvram d n_backup n_switch in
      (c ≤ n) × (c ≤ nvram + n_switch) × (c ≤ d + n_backup) × (c ≤ min (nvram + first) n)
balanced_bounds k nvram d n_backup n_switch first n e h l = ground arith

not_both_zero : (a b : ℕ) → 0 < a + b → (a == 0 && b == 0) ≡ false
not_both_zero a b h = ground arith

module _ (k : Kernel) (laws : TableLaws k) (n : ℕ) (h : n ≤ max_n_switch) (s : State k.Space)
    (p : 0 < s.n_pids) (f : Fresh k s) where
  abbrev first_state : State k.Space
  first_state = nvram_walked k n s

  abbrev last_state : State k.Space
  last_state = dram_walked k n s

  abbrev second_state : State k.Space
  second_state = second k laws n h s p f

  -- The NVRAM pages found, and the DRAM pages found.
  abbrev nvram : ℕ
  nvram = first_state.n_found

  abbrev dram : ℕ
  dram = last_state.n_found - nvram - 1

  total : last_state.n_found ≡ nvram + 1 + dram
  total = let r = dram_walked-Ready k laws n h s p f in omega (arith, r.bounded.grown)

  -- What stands before the DRAM pages is what stood there before the second walk.
  split :
      (slice last_state.found_addrs 0 (nvram + 1) ≡ slice second_state.found_addrs 0 (nvram + 1))
      × (slice last_state.found_addrs (nvram + 1) dram
          ≡ take (min (nvram + first_state.n_switch_backup) n) (dram_cycle k (is_idle_dram k) s))
  unfolding start_dram
  split =
      slice_split last_state.found_addrs second_state.found_addrs (nvram + 1) dram
        (min (nvram + first_state.n_switch_backup) n) (dram_cycle k (is_idle_dram k) s)
        (ap (slice last_state.found_addrs 0) (sym total) ∙ dram_walked-found k laws n h s p f)

  -- The pages found in NVRAM are still there, with the separator behind them.
  at_front :
      (i : ℕ) → i < nvram + 1 → last_state.found_addrs i ≡ (separate k first_state).found_addrs i
  unfolding start_dram
  at_front i l =
      let z : 0 + i ≡ i = omega arith in
      rw z at (slice_at last_state.found_addrs second_state.found_addrs 0 (nvram + 1) i split.0 l)

  separator : (last_state.found_addrs nvram).pid_retval ≡ pos 0
  separator = let e = at_front nvram (omega arith) in ground arith

  nvram_part : slice last_state.found_addrs 0 nvram ≡ found_list k first_state
  nvram_part = slice_ext last_state.found_addrs first_state.found_addrs 0 0 nvram (λ j l.
      let z : 0 + j ≡ j = omega arith in let e = at_front j (omega arith) in rw z (ground arith))

  same_backup : switch_list k last_state ≡ switch_list k first_state
  unfolding start_dram
  same_backup =
      let w = dram_walked-SparesBackup k laws n h s p f in
      ap₂ (λ g c. slice g 0 c) w.same_backup w.same_count

  abbrev count : ℕ
  count = exchanged k n s

  -- No more are exchanged than were asked for, than there are of NVRAM, and than there are of DRAM.
  count_bounds :
      (count ≤ n)
      × (count ≤ nvram + last_state.n_switch_backup)
      × (count ≤ dram + last_state.n_backup)
      × (count ≤ min (nvram + first_state.n_switch_backup) n)
  unfolding start_dram
  count_bounds =
      let first = nvram_walked-Ready k laws n h s p f in
      let last = dram_walked-Ready k laws n h s p f in
      let w = dram_walked-SparesBackup k laws n h s p f in
      let same : last_state.n_switch_backup ≡ first_state.n_switch_backup = w.same_count in
      let most : last_state.n_found ≤ nvram + 1 + min (nvram + first_state.n_switch_backup) n =
        last.bounded.found in
      balanced_bounds k nvram dram last_state.n_backup last_state.n_switch_backup
        first_state.n_switch_backup n same first.bounded.found (omega (arith, total))

  balanced_state : Layout nvram dram count last_state.search (balance k nvram last_state).search
  balanced_state = balance-Layout k nvram dram last_state total separator

  hot_part : slice (balance k nvram last_state).found_addrs 0 count ≡ take count (hot_pages k s)
  hot_part =
      let t = balance k nvram last_state in
      let l = balanced_state in
      let b = count_bounds in
      slice_ext t.found_addrs (nvram_page nvram last_state.search) 0 0 count
        (λ j lt. let z : 0 + j ≡ j = omega arith in rw z (l.before j lt))
      ∙ slice-join last_state.found_addrs last_state.switch_backup_addrs nvram
          last_state.n_switch_backup count b.1
      ∙ ap (take count) (ap₂ ◌++◌ nvram_part same_backup)
      ∙ take_less count n _ (hot_pages k s) b.0 (nvram_walked-hot k laws n h s p f)

  idle_part :
      slice (balance k nvram last_state).found_addrs (count + 1) count
      ≡ take count (dram_cycle k (is_idle_dram k) s ++ backup_list k last_state)
  idle_part =
      let t = balance k nvram last_state in
      let l = balanced_state in
      let b = count_bounds in
      let behind = λ (i : ℕ). last_state.found_addrs (nvram + 1 + i) in
      let shifted : slice behind 0 dram ≡ slice last_state.found_addrs (nvram + 1) dram =
        slice_ext behind last_state.found_addrs 0 (nvram + 1) dram
          (λ j lt. let z : 0 + j ≡ j = omega arith in rw z refl) in
      slice_ext t.found_addrs (dram_page nvram dram last_state.search) (count + 1) 0 count
        (λ j lt. let z : 0 + j ≡ j = omega arith in rw z (l.behind j lt))
      ∙ slice-join behind last_state.backup_addrs dram last_state.n_backup count b.2
      ∙ ap (λ xs. take count (xs ++ backup_list k last_state)) (shifted ∙ split.1)
      ∙ take-take_first count _ (dram_cycle k (is_idle_dram k) s) _ b.3

  something :
      0 < length (take n (hot_pages k s))
      → (first_state.n_found == 0 && first_state.n_switch_backup == 0) ≡ false
  something more =
      let found = length-slice first_state.found_addrs 0 nvram in
      let backup = length-slice first_state.switch_backup_addrs 0 first_state.n_switch_backup in
      let both = length-append (found_list k first_state) (switch_list k first_state) in
      let same =
        sym (length-take n (found_list k first_state ++ switch_list k first_state))
        ∙ ap length (nvram_walked-hot k laws n h s p f) in
      not_both_zero nvram first_state.n_switch_backup (omega arith)

  -- Where page tables do what is documented and some page of NVRAM is wanted: `switch_walk` returns 0
  -- and leaves the same number of pages of each tier with the separator between them. Those of NVRAM
  -- are the first of the pages accessed and written, and behind them of those only accessed; those of
  -- DRAM the first of the idle pages, and behind them of those that the walk backed up, each in the
  -- order of one cycle over the bound processes from where the last walk of the tier stopped.
  pub switch_walk-wanted :
      0 < length (take n (hot_pages k s))
      → let r = switch_walk k (pos n) s in
        (r.0 ≡ pos 0)
        × (r.1.n_found ≡ 2 * count + 1)
        × (slice r.1.found_addrs 0 count ≡ take count (hot_pages k s))
        × ((r.1.found_addrs count).pid_retval ≡ pos 0)
        × (slice r.1.found_addrs (count + 1) count
            ≡ take count (dram_cycle k (is_idle_dram k) s ++ backup_list k last_state))
  unfolding switch_walk switch_rest
  switch_walk-wanted more =
      let l = balanced_state in
      let e = something more in rw e (refl, l.total, hot_part, l.separator, idle_part)
