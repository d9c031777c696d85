-- ===== src/Kernel/Tables.antt =====
-- What is documented of page tables: there is one entry at an address, `walk_page_range` reads it at
-- each address of the range, and a commit writes that of its address and no other.
use ambix.Base.{ℕ, ◌≡◌, ◌==◌, List, [], ◌∷◌, Option, some, if◌then◌else◌}
use ambix.Kernel.{Kernel, PteLaws}

-- The entries at some addresses.
abbrev pub read_all : {P : Type 0} → (ℕ → Option P) → List ℕ → List (ℕ × Option P)
read_all f [] = []
read_all f (a ∷ addrs) = (a, f a) ∷ read_all f addrs

pub record TableLaws (k : Kernel) : Type 0 where
  pub pte_laws : PteLaws k
  pub present-mkclean : (p : k.Pte) → k.pte_present (k.pte_mkclean p) ≡ k.pte_present p
  pub write-mkclean : (p : k.Pte) → k.pte_write (k.pte_mkclean p) ≡ k.pte_write p
  pub nid-mkclean : (p : k.Pte) → k.pte_nid (k.pte_mkclean p) ≡ k.pte_nid p
  pub pte_at : k.Space → ℕ → Option k.Pte
  pub addresses : k.Space → ℕ → ℕ → List ℕ
  pub entries-at :
      (sp : k.Space) (lo hi : ℕ) → k.entries sp lo hi ≡ read_all (pte_at sp) (addresses sp lo hi)
  pub addresses-commit :
      (sp : k.Space) (a : ℕ) (p q : k.Pte) (lo hi : ℕ)
      → pte_at sp a ≡ some q
      → addresses (k.commit sp a p) lo hi ≡ addresses sp lo hi
  pub pte_at-commit :
      (sp : k.Space) (a : ℕ) (p q : k.Pte) (b : ℕ)
      → pte_at sp a ≡ some q
      → pte_at (k.commit sp a p) b ≡ (if a == b then some p else pte_at sp b)
