-- ===== src/ClockDwf/Stale.antt =====
-- The end of `switch_walk` where fewer DRAM pages than NVRAM pages were found.
use ambix.Base.{ℕ, zero, suc, ◌+◌, ◌-◌, ◌*◌, ◌≤◌, ◌<◌, ◌≡◌, refl, negsuc, arith, ◌==◌, false, ◌∙◌}
use native.Mathlib.Decide.{ℕ_discrete}
use ambix.Kernel.{Kernel}
use ambix.ClockDwf.{Constants}
use ambix.ClockDwf.Walk.{State, copy_back, reconstruct, rebalance}

module _ (k : Kernel) (constants : Constants) where
  copy_back_before :
      (rounds i nvram j : ℕ) (s : State k constants)
      → j < i
      → (copy_back k constants rounds i nvram s).found_addrs j ≡ s.found_addrs j
  unfolding copy_back
  copy_back_before zero i nvram j s b = refl
  copy_back_before (suc rounds) i nvram j s b =
      copy_back_before rounds (i + 1) nvram j _ (omega (arith, b)) ∙ ground arith

  -- Each copied entry is the one `nvram + 1` further on, as it was before the loop.
  copy_back_copies :
      (rounds i nvram j : ℕ) (s : State k constants)
      → i ≤ j
      → j < i + rounds
      → (copy_back k constants rounds i nvram s).found_addrs j ≡ s.found_addrs (nvram + 1 + j)
  unfolding copy_back
  copy_back_copies zero i nvram j s from to = absurd (omega (arith, from, to))
  copy_back_copies (suc rounds) i nvram j s from to = elim (ℕ_discrete i j) [
    | yes e ↦ copy_back_before rounds (i + 1) nvram j _ (omega (arith, e)) ∙ ground (arith, e)
    | no ne ↦
        copy_back_copies rounds (i + 1) nvram j _ (omega (arith, ne)) (omega (arith, to))
        ∙ ground (arith, from)
  ]

  copy_back-n_found :
      (rounds i nvram : ℕ) (s : State k constants)
      → (copy_back k constants rounds i nvram s).n_found ≡ s.n_found
  unfolding copy_back
  copy_back-n_found zero i nvram s = refl
  copy_back-n_found (suc rounds) i nvram s = copy_back-n_found rounds (i + 1) nvram _

  pub reconstruct-n_found :
      (nvram d : ℕ) (s : State k constants)
      → (reconstruct k constants d nvram s).n_found ≡ d * 2 + 1
  unfolding reconstruct
  reconstruct-n_found nvram d s = copy_back-n_found d (d + 1) nvram _

  reconstruct_before :
      (nvram d i : ℕ) (s : State k constants)
      → i < d
      → (reconstruct k constants d nvram s).found_addrs i ≡ s.found_addrs i
  unfolding reconstruct
  reconstruct_before nvram d i s b =
      copy_back_before d (d + 1) nvram i _ (omega (arith, b)) ∙ ground (arith, b)

  reconstruct_copies :
      (nvram d i : ℕ) (s : State k constants)
      → s.n_found ≡ nvram + 1 + d
      → i < d
      → (reconstruct k constants d nvram s).found_addrs (d + 1 + i)
        ≡ s.found_addrs (s.n_found + 1 + i)
  unfolding reconstruct
  reconstruct_copies nvram d i s e b =
      copy_back_copies d (d + 1) nvram (d + 1 + i) _ (omega arith) (omega (arith, b))
      ∙ ground (arith, e)

  rebalance-few :
      (nvram d : ℕ) (s : State k constants)
      → s.n_found ≡ nvram + 1 + d
      → d < nvram
      → rebalance k constants nvram s ≡ (negsuc 0, reconstruct k constants d nvram s)
  unfolding rebalance
  rebalance-few nvram d s e few =
      let g : s.n_found - nvram - 1 ≡ d = omega (arith, e) in
      let ne : (d == nvram) ≡ false = ground (arith, few) in rw g (rw ne refl)

  -- Where `nvram` NVRAM pages, the separator and fewer DRAM pages, `d` of them, are listed: the end
  -- of `switch_walk` returns -1 with a count of `d` pages, a separator and `d` more. The first `d`
  -- entries stay, and those behind the separator are the ones that lay from the second entry behind
  -- the list on, not the DRAM pages found.
  pub rebalance_stale :
      (nvram d : ℕ) (s : State k constants)
      → s.n_found ≡ nvram + 1 + d
      → d < nvram
      → ((rebalance k constants nvram s).0 ≡ negsuc 0)
        × (((rebalance k constants nvram s).1.n_found ≡ d * 2 + 1)
            × (((i : ℕ) → i < d → (rebalance k constants nvram s).1.found_addrs i ≡ s.found_addrs i)
                × ((i : ℕ)
                    → i < d
                    → (rebalance k constants nvram s).1.found_addrs (d + 1 + i)
                      ≡ s.found_addrs (s.n_found + 1 + i))))
  unfolding rebalance
  rebalance_stale nvram d s e few =
      let all = rebalance-few nvram d s e few in
      rw all (
        refl,
        (
          reconstruct-n_found nvram d s,
          ((λ i b. reconstruct_before nvram d i s b), (λ i b. reconstruct_copies nvram d i s e b)),
        ),
      )
