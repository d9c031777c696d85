-- ===== src/Placement/Walk/Offers.antt =====
-- The pages that a walk comes by, as a list: what `do_page_walk` is compared with.
use ambix.Base.{ℕ, zero, suc, ◌+◌, ◌-◌, Bool, Option, none, some, ◌≡◌, arith, List, [], ◌++◌}
use ambix.Config.{AddrInfo, max_address}
use ambix.Kernel.{Kernel, Task}
use ambix.Placement.Walk.Selection.{candidates_of}

module _ (k : Kernel) (test : Option k.Pte → Bool) where
  -- The pages of a process in a range of addresses that pass the test, with its pid. A process with
  -- no address space has none.
  abbrev pub pages_of : (ℕ → k.Space) → Option Task → ℕ → ℕ → List AddrInfo
  pages_of sp none lo hi = []
  pages_of sp (some t) lo hi = elim t.mm [
    | none ↦ []
    | some m ↦ candidates_of k test t.pid (k.entries (sp m) lo hi)
  ]

  -- Those of the processes in so many slots, from slot `i` on.
  abbrev pub pages_from : (ℕ → k.Space) → (ℕ → Option Task) → ℕ → ℕ → List AddrInfo
  pages_from sp items zero i = []
  pages_from sp items (suc rounds) i =
      pages_of sp (items i) 0 max_address ++ pages_from sp items rounds (i + 1)

  -- One cycle over the bound processes: it begins in a process at an address, goes through those
  -- behind it and those before it, and ends in the first one at that address, inclusive.
  abbrev pub cycle : (ℕ → k.Space) → (ℕ → Option Task) → ℕ → ℕ → ℕ → List AddrInfo
  cycle sp items count last_pid last_addr =
      ((pages_of sp (items last_pid) last_addr max_address
          ++ pages_from sp items (count - (last_pid + 1)) (last_pid + 1))
        ++ pages_from sp items last_pid 0)
      ++ pages_of sp (items last_pid) 0 (last_addr + 1)

  pub pages_of-no_mm :
      (sp : ℕ → k.Space) (t : Task) (lo hi : ℕ) → t.mm ≡ none → pages_of sp (some t) lo hi ≡ []
  pages_of-no_mm sp t lo hi e = ground arith

  pub pages_of-mm :
      (sp : ℕ → k.Space) (t : Task) (lo hi m : ℕ)
      → t.mm ≡ some m
      → pages_of sp (some t) lo hi ≡ candidates_of k test t.pid (k.entries (sp m) lo hi)
  pages_of-mm sp t lo hi m e = ground arith
