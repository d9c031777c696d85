-- ===== src/Placement/Walk/Visit.antt =====
-- What a callback does with the pages that pass a test, and what a walk keeps.
use ambix.Base.{ℕ, ◌≡◌, Bool, true, false, Option, ℤ, List, [], ◌∷◌, ◌++◌, if◌then◌else◌}
use ambix.Config.{AddrInfo}
use ambix.Kernel.{Kernel, Task}
use ambix.Kernel.Tables.{TableLaws}
use ambix.Placement.State.{State}
use ambix.Placement.Callbacks.{Callback, found_all, candidate}
use ambix.Placement.Callbacks.Bounds.{Safe}
use ambix.Placement.Walk.Keeps.{set_pid}
use ambix.Placement.Walk.Alike.{Alike}

module _ (k : Kernel) (test : Option k.Pte → Bool) where
  -- The page, if it passes the test.
  abbrev pub offer : State k.Space → ℕ → Option k.Pte → List AddrInfo
  offer s addr e = if test e then candidate k s addr ∷ [] else []

  -- What a callback does with the pages that pass the test: `Has s xs` says of a state what it has
  -- made of the pages `xs`.
  pub record Tallies (cb : Callback k) (IsReady : State k.Space → Type 0)
      (Has : State k.Space → List AddrInfo → Type 0) : Type 0 where
    pub ends :
        (m addr : ℕ) (e : Option k.Pte) (s : State k.Space) → (cb m addr e s).0 ≡ found_all k s
    pub same_pid :
        (m addr : ℕ) (e : Option k.Pte) (s : State k.Space)
        → (cb m addr e s).1.curr_pid ≡ s.curr_pid
    pub takes :
        (m addr : ℕ) (e : Option k.Pte) (s : State k.Space) (xs : List AddrInfo)
        → IsReady s
        → found_all k s ≡ false
        → Has s xs
        → Has (cb m addr e s).1 (xs ++ offer s addr e)
    pub stops :
        (m addr : ℕ) (e : Option k.Pte) (s : State k.Space) (xs : List AddrInfo)
        → found_all k s ≡ true
        → Has s xs
        → Has (cb m addr e s).1 xs
    pub full :
        (s : State k.Space) (xs ys : List AddrInfo)
        → IsReady s
        → found_all k s ≡ true
        → Has s xs
        → Has s (xs ++ ys)
    pub enters :
        (s : State k.Space) (pid : ℤ) (xs : List AddrInfo) → Has s xs → Has (set_pid s pid) xs

module _ (k : Kernel) (laws : TableLaws k) (test : Option k.Pte → Bool) (b n : ℕ)
    (items : ℕ → Option Task) (count : ℕ) (sp : ℕ → k.Space) where
  -- What a walk keeps: its bounds, and page tables that offer the same pages as at its beginning.
  pub record Inside (s : State k.Space) : Type 0 where
    pub safe : Safe k b n items count s
    pub alike : Alike k laws test sp s.spaces
