-- ===== src/Placement/Walk/Backs.antt =====
-- Which pages the callbacks back up, and in which of the two lists.
use ambix.Base.{
  ℕ, ◌≡◌, refl, Bool, true, false, ℤ, Option, none, some, List, [], ◌∷◌, ◌++◌, arith, length, slice,
  slice-update_end, length-slice, if◌then◌else◌,
}
use ambix.Config.{AddrInfo}
use ambix.Kernel.{Kernel}
use ambix.Placement.State.{State, Search, push_backup, push_switch_backup, push_found}
use ambix.Placement.Callbacks.{
  Callback, found_all, candidate, has_room, pte_callback_nvram_force, pte_callback_nvram_write,
  pte_callback_nvram_intensive, pte_callback_nvram_switch,
}
use ambix.Placement.Walk.Selection.{
  is_intensive_nvram, is_other_nvram, is_written_nvram, is_read_nvram,
}

-- One of the two lists of backup candidates.
pub record Shelf : Type 0 where
  pub items : Search → List AddrInfo
  pub size : Search → ℕ
  pub push : Search → AddrInfo → Search
  pub length-items : (q : Search) → length (items q) ≡ size q
  pub items-push : (q : Search) (c : AddrInfo) → items (push q c) ≡ items q ++ c ∷ []
  pub n_found-push : (q : Search) (c : AddrInfo) → (push q c).n_found ≡ q.n_found
  pub items-push_found : (q : Search) (c : AddrInfo) → items (push_found q c) ≡ items q
  pub items-same_pid : (q : Search) (pid : ℤ) → items (record q { curr_pid = pid }) ≡ items q

abbrev pub backup_shelf : Shelf
backup_shelf = record {
  items = λ q. slice q.backup_addrs 0 q.n_backup;
  size = λ q. q.n_backup;
  push = push_backup;
  length-items = λ q. length-slice q.backup_addrs 0 q.n_backup;
  items-push = λ q c. slice-update_end q.backup_addrs q.n_backup c;
  n_found-push = λ q c. refl;
  items-push_found = λ q c. refl;
  items-same_pid = λ q pid. refl;
}

abbrev pub switch_shelf : Shelf
switch_shelf = record {
  items = λ q. slice q.switch_backup_addrs 0 q.n_switch_backup;
  size = λ q. q.n_switch_backup;
  push = push_switch_backup;
  length-items = λ q. length-slice q.switch_backup_addrs 0 q.n_switch_backup;
  items-push = λ q c. slice-update_end q.switch_backup_addrs q.n_switch_backup c;
  n_found-push = λ q c. refl;
  items-push_found = λ q c. refl;
  items-same_pid = λ q pid. refl;
}

module _ (k : Kernel) where
  -- What a callback backs up that finds the pages passing `first`: those passing `second`, while there
  -- is room.
  module _ (shelf : Shelf) (cb : Callback k) (first second : Option k.Pte → Bool) where
    abbrev Disjoint : Type 0
    Disjoint = (e : Option k.Pte) → first e ≡ true → second e ≡ false

    abbrev BacksUp : Type 0
    BacksUp =
        (m addr : ℕ) (e : Option k.Pte) (s : State k.Space)
        → found_all k s ≡ false
        → second e ≡ true
        → (cb m addr e s).1.search ≡ (
            if has_room k s (shelf.size s.search)
            then shelf.push s.search (candidate k s addr)
            else s.search)

    abbrev Leaves : Type 0
    Leaves =
        (m addr : ℕ) (e : Option k.Pte) (s : State k.Space)
        → found_all k s ≡ false
        → first e ≡ false
        → second e ≡ false
        → (cb m addr e s).1.search ≡ s.search

    abbrev Halts : Type 0
    Halts =
        (m addr : ℕ) (e : Option k.Pte) (s : State k.Space)
        → found_all k s ≡ true
        → (cb m addr e s).1.search ≡ s.search

    pub record Backs : Type 0 where
      pub disjoint : Disjoint
      pub backs : BacksUp
      pub leaves : Leaves
      pub halts : Halts

  nvram_force-disjoint :
      Disjoint backup_shelf (pte_callback_nvram_force k) (is_intensive_nvram k) (is_other_nvram k)
  nvram_force-disjoint none h = refl
  nvram_force-disjoint (some pte) h = ground arith

  nvram_force-backs :
      BacksUp backup_shelf (pte_callback_nvram_force k) (is_intensive_nvram k) (is_other_nvram k)
  unfolding pte_callback_nvram_force
  nvram_force-backs m addr none s h t = cc
  nvram_force-backs m addr (some pte) s h t = ground arith

  nvram_force-leaves :
      Leaves backup_shelf (pte_callback_nvram_force k) (is_intensive_nvram k) (is_other_nvram k)
  unfolding pte_callback_nvram_force
  nvram_force-leaves m addr none s h a b = ground arith
  nvram_force-leaves m addr (some pte) s h a b = ground arith

  nvram_force-halts :
      Halts backup_shelf (pte_callback_nvram_force k) (is_intensive_nvram k) (is_other_nvram k)
  unfolding pte_callback_nvram_force
  nvram_force-halts m addr none s h = ground arith
  nvram_force-halts m addr (some pte) s h = ground arith

  pub nvram_force-Backs :
      Backs backup_shelf (pte_callback_nvram_force k) (is_intensive_nvram k) (is_other_nvram k)
  nvram_force-Backs = record {
    disjoint = nvram_force-disjoint;
    backs = nvram_force-backs;
    leaves = nvram_force-leaves;
    halts = nvram_force-halts;
  }

  nvram_write-disjoint :
      Disjoint backup_shelf (pte_callback_nvram_write k) (is_intensive_nvram k) (is_written_nvram k)
  nvram_write-disjoint none h = refl
  nvram_write-disjoint (some pte) h = ground arith

  nvram_write-backs :
      BacksUp backup_shelf (pte_callback_nvram_write k) (is_intensive_nvram k) (is_written_nvram k)
  unfolding pte_callback_nvram_write
  nvram_write-backs m addr none s h t = cc
  nvram_write-backs m addr (some pte) s h t = ground arith

  nvram_write-leaves :
      Leaves backup_shelf (pte_callback_nvram_write k) (is_intensive_nvram k) (is_written_nvram k)
  unfolding pte_callback_nvram_write
  nvram_write-leaves m addr none s h a b = ground arith
  nvram_write-leaves m addr (some pte) s h a b = ground arith

  nvram_write-halts :
      Halts backup_shelf (pte_callback_nvram_write k) (is_intensive_nvram k) (is_written_nvram k)
  unfolding pte_callback_nvram_write
  nvram_write-halts m addr none s h = ground arith
  nvram_write-halts m addr (some pte) s h = ground arith

  pub nvram_write-Backs :
      Backs backup_shelf (pte_callback_nvram_write k) (is_intensive_nvram k) (is_written_nvram k)
  nvram_write-Backs = record {
    disjoint = nvram_write-disjoint;
    backs = nvram_write-backs;
    leaves = nvram_write-leaves;
    halts = nvram_write-halts;
  }

  nvram_intensive-disjoint :
      Disjoint backup_shelf
        (pte_callback_nvram_intensive k)
        (is_intensive_nvram k)
        (is_read_nvram k)
  nvram_intensive-disjoint none h = refl
  nvram_intensive-disjoint (some pte) h = ground arith

  nvram_intensive-backs :
      BacksUp backup_shelf (pte_callback_nvram_intensive k) (is_intensive_nvram k) (is_read_nvram k)
  unfolding pte_callback_nvram_intensive
  nvram_intensive-backs m addr none s h t = cc
  nvram_intensive-backs m addr (some pte) s h t = ground arith

  nvram_intensive-leaves :
      Leaves backup_shelf (pte_callback_nvram_intensive k) (is_intensive_nvram k) (is_read_nvram k)
  unfolding pte_callback_nvram_intensive
  nvram_intensive-leaves m addr none s h a b = ground arith
  nvram_intensive-leaves m addr (some pte) s h a b = ground arith

  nvram_intensive-halts :
      Halts backup_shelf (pte_callback_nvram_intensive k) (is_intensive_nvram k) (is_read_nvram k)
  unfolding pte_callback_nvram_intensive
  nvram_intensive-halts m addr none s h = ground arith
  nvram_intensive-halts m addr (some pte) s h = ground arith

  pub nvram_intensive-Backs :
      Backs backup_shelf (pte_callback_nvram_intensive k) (is_intensive_nvram k) (is_read_nvram k)
  nvram_intensive-Backs = record {
    disjoint = nvram_intensive-disjoint;
    backs = nvram_intensive-backs;
    leaves = nvram_intensive-leaves;
    halts = nvram_intensive-halts;
  }

  nvram_switch-disjoint :
      Disjoint switch_shelf (pte_callback_nvram_switch k) (is_intensive_nvram k) (is_read_nvram k)
  nvram_switch-disjoint none h = refl
  nvram_switch-disjoint (some pte) h = ground arith

  nvram_switch-backs :
      BacksUp switch_shelf (pte_callback_nvram_switch k) (is_intensive_nvram k) (is_read_nvram k)
  unfolding pte_callback_nvram_switch
  nvram_switch-backs m addr none s h t = cc
  nvram_switch-backs m addr (some pte) s h t = ground arith

  nvram_switch-leaves :
      Leaves switch_shelf (pte_callback_nvram_switch k) (is_intensive_nvram k) (is_read_nvram k)
  unfolding pte_callback_nvram_switch
  nvram_switch-leaves m addr none s h a b = ground arith
  nvram_switch-leaves m addr (some pte) s h a b = ground arith

  nvram_switch-halts :
      Halts switch_shelf (pte_callback_nvram_switch k) (is_intensive_nvram k) (is_read_nvram k)
  unfolding pte_callback_nvram_switch
  nvram_switch-halts m addr none s h = ground arith
  nvram_switch-halts m addr (some pte) s h = ground arith

  pub nvram_switch-Backs :
      Backs switch_shelf (pte_callback_nvram_switch k) (is_intensive_nvram k) (is_read_nvram k)
  nvram_switch-Backs = record {
    disjoint = nvram_switch-disjoint;
    backs = nvram_switch-backs;
    leaves = nvram_switch-leaves;
    halts = nvram_switch-halts;
  }
