-- ===== src/MixM/Selection.antt =====
-- Which pages the variant's callbacks find: on NVRAM it is the pages that are read and not written.
use ambix.Base.{
  ℕ, ◌≤◌, ◌≡◌, Bool, false, not, ◌&&◌, Option, none, some, pos, List, ◌++◌, take, arith,
}
use ambix.Config.{nvram_mode}
use ambix.Kernel.{Kernel}
use ambix.Placement.State.{State}
use ambix.Placement.Callbacks.{Callback, is_excluded}
use ambix.Placement.Walk.{walk_entries}
use ambix.Placement.Walk.Selection.{
  Stops, Picks, Skips, Selects, found_list, candidates_of, is_idle_dram, is_intensive_nvram,
}
use ambix.Placement.Walk.FirstFit.{walk_entries-take}
use ambix.MixM.Callbacks.{
  pte_callback_mem, pte_callback_nvram_force, pte_callback_nvram_write,
  pte_callback_nvram_intensive, pte_callback_nvram_switch,
}

module _ (k : Kernel) where
  -- A page of NVRAM that was accessed and not written.
  abbrev pub is_read_nvram : Option k.Pte → Bool
  is_read_nvram none = false
  is_read_nvram (some pte) =
      not (is_excluded k nvram_mode pte) && (k.pte_young pte && not (k.pte_dirty pte))

  mem-Stops : Stops k (pte_callback_mem k) (is_idle_dram k)
  unfolding pte_callback_mem
  mem-Stops m addr none s h = ground arith
  mem-Stops m addr (some pte) s h = ground arith

  mem-Picks : Picks k (pte_callback_mem k) (is_idle_dram k)
  unfolding pte_callback_mem
  mem-Picks m addr none s h t = cc
  mem-Picks m addr (some pte) s h t = ground arith

  mem-Skips : Skips k (pte_callback_mem k) (is_idle_dram k)
  unfolding pte_callback_mem
  mem-Skips m addr none s h t = ground arith
  mem-Skips m addr (some pte) s h t = ground arith

  mem-Selects : Selects k (pte_callback_mem k) (is_idle_dram k)
  mem-Selects = record { stops = mem-Stops; picks = mem-Picks; skips = mem-Skips }

  nvram_force-Stops : Stops k (pte_callback_nvram_force k) (is_intensive_nvram k)
  unfolding pte_callback_nvram_force
  nvram_force-Stops m addr none s h = ground arith
  nvram_force-Stops m addr (some pte) s h = ground arith

  nvram_force-Picks : Picks k (pte_callback_nvram_force k) (is_intensive_nvram k)
  unfolding pte_callback_nvram_force
  nvram_force-Picks m addr none s h t = cc
  nvram_force-Picks m addr (some pte) s h t = ground arith

  nvram_force-Skips : Skips k (pte_callback_nvram_force k) (is_intensive_nvram k)
  unfolding pte_callback_nvram_force
  nvram_force-Skips m addr none s h t = ground arith
  nvram_force-Skips m addr (some pte) s h t = ground arith

  nvram_force-Selects : Selects k (pte_callback_nvram_force k) (is_intensive_nvram k)
  nvram_force-Selects = record {
    stops = nvram_force-Stops;
    picks = nvram_force-Picks;
    skips = nvram_force-Skips;
  }

  nvram_write-Stops : Stops k (pte_callback_nvram_write k) (is_intensive_nvram k)
  unfolding pte_callback_nvram_write
  nvram_write-Stops m addr none s h = ground arith
  nvram_write-Stops m addr (some pte) s h = ground arith

  nvram_write-Picks : Picks k (pte_callback_nvram_write k) (is_intensive_nvram k)
  unfolding pte_callback_nvram_write
  nvram_write-Picks m addr none s h t = cc
  nvram_write-Picks m addr (some pte) s h t = ground arith

  nvram_write-Skips : Skips k (pte_callback_nvram_write k) (is_intensive_nvram k)
  unfolding pte_callback_nvram_write
  nvram_write-Skips m addr none s h t = ground arith
  nvram_write-Skips m addr (some pte) s h t = ground arith

  nvram_write-Selects : Selects k (pte_callback_nvram_write k) (is_intensive_nvram k)
  nvram_write-Selects = record {
    stops = nvram_write-Stops;
    picks = nvram_write-Picks;
    skips = nvram_write-Skips;
  }

  nvram_intensive-Stops : Stops k (pte_callback_nvram_intensive k) is_read_nvram
  unfolding pte_callback_nvram_intensive
  nvram_intensive-Stops m addr none s h = ground arith
  nvram_intensive-Stops m addr (some pte) s h = ground arith

  nvram_intensive-Picks : Picks k (pte_callback_nvram_intensive k) is_read_nvram
  unfolding pte_callback_nvram_intensive
  nvram_intensive-Picks m addr none s h t = cc
  nvram_intensive-Picks m addr (some pte) s h t = ground arith

  nvram_intensive-Skips : Skips k (pte_callback_nvram_intensive k) is_read_nvram
  unfolding pte_callback_nvram_intensive
  nvram_intensive-Skips m addr none s h t = ground arith
  nvram_intensive-Skips m addr (some pte) s h t = ground arith

  nvram_intensive-Selects : Selects k (pte_callback_nvram_intensive k) is_read_nvram
  nvram_intensive-Selects = record {
    stops = nvram_intensive-Stops;
    picks = nvram_intensive-Picks;
    skips = nvram_intensive-Skips;
  }

  nvram_switch-Stops : Stops k (pte_callback_nvram_switch k) is_read_nvram
  unfolding pte_callback_nvram_switch
  nvram_switch-Stops m addr none s h = ground arith
  nvram_switch-Stops m addr (some pte) s h = ground arith

  nvram_switch-Picks : Picks k (pte_callback_nvram_switch k) is_read_nvram
  unfolding pte_callback_nvram_switch
  nvram_switch-Picks m addr none s h t = cc
  nvram_switch-Picks m addr (some pte) s h t = ground arith

  nvram_switch-Skips : Skips k (pte_callback_nvram_switch k) is_read_nvram
  unfolding pte_callback_nvram_switch
  nvram_switch-Skips m addr none s h t = ground arith
  nvram_switch-Skips m addr (some pte) s h t = ground arith

  nvram_switch-Selects : Selects k (pte_callback_nvram_switch k) is_read_nvram
  nvram_switch-Selects = record {
    stops = nvram_switch-Stops;
    picks = nvram_switch-Picks;
    skips = nvram_switch-Skips;
  }

-- While at most the count asked for is found, behind the pages found before, each walk of the variant over some entries finds, in the order of the
-- walk and cut off at the count: from DRAM the idle pages, from NVRAM in the forced and the write mode
-- the pages accessed and written, in the intensive and the switch mode the pages accessed and not
-- written.
pub mixm_first_fit :
    (k : Kernel) (n m : ℕ) (es : List (ℕ × Option k.Pte)) (s : State k.Space)
    → s.n_to_find ≡ pos n
    → s.n_found ≤ n
    → let first = λ (test : Option k.Pte → Bool).
      take n (found_list k s ++ candidates_of k test s.curr_pid es) in
      (found_list k (walk_entries k (pte_callback_mem k) m es s) ≡ first (is_idle_dram k))
      × (found_list k (walk_entries k (pte_callback_nvram_force k) m es s)
          ≡ first (is_intensive_nvram k))
      × (found_list k (walk_entries k (pte_callback_nvram_write k) m es s)
          ≡ first (is_intensive_nvram k))
      × (found_list k (walk_entries k (pte_callback_nvram_intensive k) m es s)
          ≡ first (is_read_nvram k))
      × (found_list k (walk_entries k (pte_callback_nvram_switch k) m es s)
          ≡ first (is_read_nvram k))
mixm_first_fit k n m es s e h =
    let take_by = λ (cb : Callback k) (test : Option k.Pte → Bool) (sel : Selects k cb test).
      walk_entries-take k cb test sel n m es s e h in
    (
      take_by _ _ (mem-Selects k),
      take_by _ _ (nvram_force-Selects k),
      take_by _ _ (nvram_write-Selects k),
      take_by _ _ (nvram_intensive-Selects k),
      take_by _ _ (nvram_switch-Selects k),
    )
