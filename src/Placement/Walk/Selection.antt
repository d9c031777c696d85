-- ===== src/Placement/Walk/Selection.antt =====
-- Which pages a walk finds: the first that pass its test, in the order of the walk.
use ambix.Base.{
  ℕ, ◌≡◌, Bool, true, false, not, ◌&&◌, ◌||◌, Option, none, some, ℤ, List, [], ◌∷◌, if◌then◌else◌,
  arith, slice,
}
use ambix.Config.{AddrInfo, dram_mode, nvram_mode}
use ambix.Kernel.{Kernel}
use ambix.Placement.State.{State, push_found}
use ambix.Placement.Callbacks.{
  Callback, is_excluded, found_all, candidate, pte_callback_mem, pte_callback_nvram_force,
  pte_callback_nvram_write, pte_callback_nvram_intensive, pte_callback_nvram_switch,
}

module _ (k : Kernel) where
  -- The tests of the callbacks: an idle page of DRAM, and a page of NVRAM that was both accessed and
  -- written.
  abbrev pub is_idle_dram : Option k.Pte → Bool
  is_idle_dram none = false
  is_idle_dram (some pte) = not (is_excluded k dram_mode pte) && not (k.pte_young pte)

  abbrev pub is_intensive_nvram : Option k.Pte → Bool
  is_intensive_nvram none = false
  is_intensive_nvram (some pte) =
      not (is_excluded k nvram_mode pte) && (k.pte_young pte && k.pte_dirty pte)

  -- The pages that a walk in the mode NVRAM backs up, in the mode NVRAM write, and in the mode NVRAM
  -- intensive.
  abbrev pub is_other_nvram : Option k.Pte → Bool
  is_other_nvram none = false
  is_other_nvram (some pte) =
      not (is_excluded k nvram_mode pte) && not (k.pte_young pte && k.pte_dirty pte)

  abbrev pub is_written_nvram : Option k.Pte → Bool
  is_written_nvram none = false
  is_written_nvram (some pte) =
      not (is_excluded k nvram_mode pte) && (k.pte_dirty pte && not (k.pte_young pte))

  abbrev pub is_read_nvram : Option k.Pte → Bool
  is_read_nvram none = false
  is_read_nvram (some pte) =
      not (is_excluded k nvram_mode pte) && (k.pte_young pte && not (k.pte_dirty pte))

  -- What a page leaves alone that is not found: the pages found before it. A fault stays.
  pub record Passes (s t : State k.Space) : Type 0 where
    pub found : t.found_addrs ≡ s.found_addrs
    pub count : t.n_found ≡ s.n_found
    pub target : t.n_to_find ≡ s.n_to_find
    pub pid : t.curr_pid ≡ s.curr_pid
    pub fault : s.fault || t.fault ≡ t.fault

  module _ (cb : Callback k) (test : Option k.Pte → Bool) where
    -- The callback stops once enough pages are found,
    abbrev pub Stops : Type 0
    Stops =
        (m addr : ℕ) (e : Option k.Pte) (s : State k.Space)
        → found_all k s ≡ true
        → ((cb m addr e s).0 ≡ true) × Passes s (cb m addr e s).1

    -- before that it finds each page that passes the test,
    abbrev pub Picks : Type 0
    Picks =
        (m addr : ℕ) (e : Option k.Pte) (s : State k.Space)
        → found_all k s ≡ false
        → test e ≡ true
        → ((cb m addr e s).0 ≡ false)
          × ((cb m addr e s).1.search ≡ push_found s.search (candidate k s addr))

    -- and no other page.
    abbrev pub Skips : Type 0
    Skips =
        (m addr : ℕ) (e : Option k.Pte) (s : State k.Space)
        → found_all k s ≡ false
        → test e ≡ false
        → ((cb m addr e s).0 ≡ false) × Passes s (cb m addr e s).1

    pub record Selects : Type 0 where
      pub stops : Stops
      pub picks : Picks
      pub skips : Skips

  mem-stops : Stops (pte_callback_mem k) is_idle_dram
  unfolding pte_callback_mem
  mem-stops m addr none s h = ground arith
  mem-stops m addr (some pte) s h = ground arith

  mem-picks : Picks (pte_callback_mem k) is_idle_dram
  unfolding pte_callback_mem
  mem-picks m addr none s h t = cc
  mem-picks m addr (some pte) s h t = ground arith

  mem-skips : Skips (pte_callback_mem k) is_idle_dram
  unfolding pte_callback_mem
  mem-skips m addr none s h t = ground arith
  mem-skips m addr (some pte) s h t = ground arith

  pub mem-Selects : Selects (pte_callback_mem k) is_idle_dram
  mem-Selects = record { stops = mem-stops; picks = mem-picks; skips = mem-skips }

  nvram_force-stops : Stops (pte_callback_nvram_force k) is_intensive_nvram
  unfolding pte_callback_nvram_force
  nvram_force-stops m addr none s h = ground arith
  nvram_force-stops m addr (some pte) s h = ground arith

  nvram_force-picks : Picks (pte_callback_nvram_force k) is_intensive_nvram
  unfolding pte_callback_nvram_force
  nvram_force-picks m addr none s h t = cc
  nvram_force-picks m addr (some pte) s h t = ground arith

  nvram_force-skips : Skips (pte_callback_nvram_force k) is_intensive_nvram
  unfolding pte_callback_nvram_force
  nvram_force-skips m addr none s h t = ground arith
  nvram_force-skips m addr (some pte) s h t = ground arith

  pub nvram_force-Selects : Selects (pte_callback_nvram_force k) is_intensive_nvram
  nvram_force-Selects = record {
    stops = nvram_force-stops;
    picks = nvram_force-picks;
    skips = nvram_force-skips;
  }

  nvram_write-stops : Stops (pte_callback_nvram_write k) is_intensive_nvram
  unfolding pte_callback_nvram_write
  nvram_write-stops m addr none s h = ground arith
  nvram_write-stops m addr (some pte) s h = ground arith

  nvram_write-picks : Picks (pte_callback_nvram_write k) is_intensive_nvram
  unfolding pte_callback_nvram_write
  nvram_write-picks m addr none s h t = cc
  nvram_write-picks m addr (some pte) s h t = ground arith

  nvram_write-skips : Skips (pte_callback_nvram_write k) is_intensive_nvram
  unfolding pte_callback_nvram_write
  nvram_write-skips m addr none s h t = ground arith
  nvram_write-skips m addr (some pte) s h t = ground arith

  pub nvram_write-Selects : Selects (pte_callback_nvram_write k) is_intensive_nvram
  nvram_write-Selects = record {
    stops = nvram_write-stops;
    picks = nvram_write-picks;
    skips = nvram_write-skips;
  }

  nvram_intensive-stops : Stops (pte_callback_nvram_intensive k) is_intensive_nvram
  unfolding pte_callback_nvram_intensive
  nvram_intensive-stops m addr none s h = ground arith
  nvram_intensive-stops m addr (some pte) s h = ground arith

  nvram_intensive-picks : Picks (pte_callback_nvram_intensive k) is_intensive_nvram
  unfolding pte_callback_nvram_intensive
  nvram_intensive-picks m addr none s h t = cc
  nvram_intensive-picks m addr (some pte) s h t = ground arith

  nvram_intensive-skips : Skips (pte_callback_nvram_intensive k) is_intensive_nvram
  unfolding pte_callback_nvram_intensive
  nvram_intensive-skips m addr none s h t = ground arith
  nvram_intensive-skips m addr (some pte) s h t = ground arith

  pub nvram_intensive-Selects : Selects (pte_callback_nvram_intensive k) is_intensive_nvram
  nvram_intensive-Selects = record {
    stops = nvram_intensive-stops;
    picks = nvram_intensive-picks;
    skips = nvram_intensive-skips;
  }

  nvram_switch-stops : Stops (pte_callback_nvram_switch k) is_intensive_nvram
  unfolding pte_callback_nvram_switch
  nvram_switch-stops m addr none s h = ground arith
  nvram_switch-stops m addr (some pte) s h = ground arith

  nvram_switch-picks : Picks (pte_callback_nvram_switch k) is_intensive_nvram
  unfolding pte_callback_nvram_switch
  nvram_switch-picks m addr none s h t = cc
  nvram_switch-picks m addr (some pte) s h t = ground arith

  nvram_switch-skips : Skips (pte_callback_nvram_switch k) is_intensive_nvram
  unfolding pte_callback_nvram_switch
  nvram_switch-skips m addr none s h t = ground arith
  nvram_switch-skips m addr (some pte) s h t = ground arith

  pub nvram_switch-Selects : Selects (pte_callback_nvram_switch k) is_intensive_nvram
  nvram_switch-Selects = record {
    stops = nvram_switch-stops;
    picks = nvram_switch-picks;
    skips = nvram_switch-skips;
  }

  -- The pages found so far, in order.
  abbrev pub found_list : State k.Space → List AddrInfo
  found_list s = slice s.found_addrs 0 s.n_found

  -- The candidates of a list of entries, for the process that is walked.
  abbrev pub candidates_of : (Option k.Pte → Bool) → ℤ → List (ℕ × Option k.Pte) → List AddrInfo
  candidates_of test pid [] = []
  candidates_of test pid ((addr, e) ∷ es) =
      if test e
      then record { addr = addr; pid_retval = pid } ∷ candidates_of test pid es
      else candidates_of test pid es
