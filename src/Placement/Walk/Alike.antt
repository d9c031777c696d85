-- ===== src/Placement/Walk/Alike.antt =====
-- The callbacks write only what leaves each page's standing in a test addrs it was.
use native.Mathlib.Decide.{ℕ_discrete}
use ambix.Base.{
  ℕ, ◌≡◌, ◌==◌, refl, sym, ap, ◌∙◌, ◌⊎◌, inl, inr, arith, Bool, true, false, Option, none, some,
  List, [], ◌∷◌, if◌then◌else◌, update, ℤ, Option-cases,
}
use ambix.Kernel.{Kernel, Task}
use ambix.Kernel.Tables.{TableLaws, read_all}
use ambix.Placement.State.{State}
use ambix.Placement.Callbacks.{Callback, cleared}
use ambix.Placement.Walk.Selection.{candidates_of}
use ambix.Placement.Walk.Offers.{pages_of}

abbrev pub is_mapped : {P : Type 0} → Option P → Bool
is_mapped none = false
is_mapped (some p) = true

module _ (k : Kernel) (laws : TableLaws k) (test : Option k.Pte → Bool) where
  -- Both are there or not, and both pass the test or not.
  abbrev pub Like : Option k.Pte → Option k.Pte → Type 0
  Like e e' = (test e ≡ test e') × (is_mapped e ≡ is_mapped e')

  -- Page tables with like entries at the same addresses.
  pub record Alike (old new : ℕ → k.Space) : Type 0 where
    pub same_addresses : (m lo hi : ℕ) → laws.addresses (new m) lo hi ≡ laws.addresses (old m) lo hi
    pub like : (m a : ℕ) → Like (laws.pte_at (new m) a) (laws.pte_at (old m) a)

  pub Alike-refl : (sp : ℕ → k.Space) → Alike sp sp
  Alike-refl sp = record { same_addresses = λ m lo hi. refl; like = λ m a. (refl, refl) }

  pub Alike-trans : (a b c : ℕ → k.Space) → Alike a b → Alike b c → Alike a c
  Alike-trans a b c f g = record {
    same_addresses = λ m lo hi. g.same_addresses m lo hi ∙ f.same_addresses m lo hi;
    like = λ m x. ((g.like m x).0 ∙ (f.like m x).0, (g.like m x).1 ∙ (f.like m x).1);
  }

  candidates-read_all :
      (pid : ℤ) (f g : ℕ → Option k.Pte) (addrs : List ℕ)
      → ((a : ℕ) → test (f a) ≡ test (g a))
      → candidates_of k test pid (read_all f addrs) ≡ candidates_of k test pid (read_all g addrs)
  candidates-read_all pid f g [] h = refl
  candidates-read_all pid f g (a ∷ addrs) h =
      ground (arith, h a, candidates-read_all pid f g addrs h)

  -- The same pages pass the test.
  pub pages_of-Alike :
      (old new : ℕ → k.Space) (o : Option Task) (lo hi : ℕ)
      → Alike old new
      → pages_of k test new o lo hi ≡ pages_of k test old o lo hi
  pages_of-Alike old new none lo hi a = refl
  pages_of-Alike old new (some t) lo hi a = by_mm t.mm
    where
      by_mm :
          (mm : Option ℕ)
          → (elim mm [ none ↦ [] | some m ↦ candidates_of k test t.pid (k.entries (new m) lo hi) ])
            ≡ (elim mm [
              | none ↦ []
              | some m ↦ candidates_of k test t.pid (k.entries (old m) lo hi)
            ])
      by_mm none = refl
      by_mm (some m) =
          ap (candidates_of k test t.pid) (
            laws.entries-at (new m) lo hi
            ∙ ap (read_all (laws.pte_at (new m))) (a.same_addresses m lo hi))
          ∙ candidates-read_all t.pid _ _ _ (λ x. (a.like m x).0)
          ∙ ap (candidates_of k test t.pid) (sym (laws.entries-at (old m) lo hi))

  -- Writing an entry that stands the same.
  module _ (sp : ℕ → k.Space) (m addr : ℕ) (pte q : k.Pte)
      (there : laws.pte_at (sp m) addr ≡ some q) where
    abbrev written : ℕ → k.Space
    written = update sp m (k.commit (sp m) addr (cleared k pte))

    same_addresses-written :
        (m' lo hi : ℕ) → laws.addresses (written m') lo hi ≡ laws.addresses (sp m') lo hi
    same_addresses-written m' lo hi = elim (ℕ_discrete m m') [
      | yes e ↦ rw (← e) (ground (arith, laws.addresses-commit (sp m) addr (cleared k pte) q lo hi))
      | no ne ↦ ground arith
    ]

    written-here :
        (a : ℕ)
        → laws.pte_at (written m) a
          ≡ (if addr == a then some (cleared k pte) else laws.pte_at (sp m) a)
    written-here a = ground (arith, laws.pte_at-commit (sp m) addr (cleared k pte) q a)

    Like-here :
        Like (laws.pte_at (sp m) addr) (some pte)
        → test (some (cleared k pte)) ≡ test (some pte)
        → (a : ℕ) → Like (laws.pte_at (written m) a) (laws.pte_at (sp m) a)
    Like-here l e a = elim (ℕ_discrete addr a) [
      | yes at_addr ↦
          let w : laws.pte_at (written m) a ≡ some (cleared k pte) =
            ground (arith, written-here a) in
          rw (w, ← at_addr) (e ∙ sym (l.0), sym (l.1))
      | no elsewhere ↦
          let w : laws.pte_at (written m) a ≡ laws.pte_at (sp m) a =
            ground (arith, written-here a) in
          rw w (refl, refl)
    ]

    Like-written :
        Like (laws.pte_at (sp m) addr) (some pte)
        → test (some (cleared k pte)) ≡ test (some pte)
        → (m' a : ℕ) → Like (laws.pte_at (written m') a) (laws.pte_at (sp m') a)
    Like-written l e m' a = elim (ℕ_discrete m m') [
      | yes same ↦ rw (← same) (Like-here l e a)
      | no ne ↦ let w : written m' ≡ sp m' = ground arith in rw w (refl, refl)
    ]

  clear-Alike :
      (sp : ℕ → k.Space) (m addr : ℕ) (pte : k.Pte)
      → Like (laws.pte_at (sp m) addr) (some pte)
      → test (some (cleared k pte)) ≡ test (some pte)
      → Alike sp (update sp m (k.commit (sp m) addr (cleared k pte)))
  clear-Alike sp m addr pte l e = elim (Option-cases (laws.pte_at (sp m) addr)) [
    | inl gone ↦ let l' = rw gone at (l.1) in cc
    | inr (q, there) ↦ record {
      same_addresses = same_addresses-written sp m addr pte q there;
      like = Like-written sp m addr pte q there l e;
    }
  ]

  -- A callback that leaves the pages' standing alone, run on an entry like the one in the table.
  abbrev pub KeepsAlike : Callback k → Type 0
  KeepsAlike cb =
      (m addr : ℕ) (e : Option k.Pte) (s : State k.Space)
      → Like (laws.pte_at (s.spaces m) addr) e
      → Alike s.spaces (cb m addr e s).1.spaces

  -- It leaves the tables alone, or clears the entry.
  abbrev pub Writes : ℕ → ℕ → k.Pte → (ℕ → k.Space) → (ℕ → k.Space) → Type 0
  Writes m addr pte old new =
      (new ≡ old)
      ⊎ ((test (some (cleared k pte)) ≡ test (some pte))
          × (new ≡ update old m (k.commit (old m) addr (cleared k pte))))

  pub Writes-Alike :
      (m addr : ℕ) (pte : k.Pte) (old new : ℕ → k.Space)
      → Like (laws.pte_at (old m) addr) (some pte)
      → Writes m addr pte old new
      → Alike old new
  Writes-Alike m addr pte old new l (inl e) = rw e (Alike-refl old)
  Writes-Alike m addr pte old new l (inr (same, e)) = rw e (clear-Alike old m addr pte l same)

  pub same-Alike : (old new : ℕ → k.Space) → new ≡ old → Alike old new
  same-Alike old new e = rw e (Alike-refl old)
