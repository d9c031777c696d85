-- ===== src/Controller/Restart.antt =====
-- Where `do_switch` goes on in a later round: behind the pages of the rounds before on the one side,
-- with the first candidate again on the other.
use ambix.Base.{
  ℕ, zero, suc, ◌+◌, ◌-◌, ◌<◌, ◌≡◌, refl, ap, ◌∙◌, true, some, [], ◌∷◌, pos_part, ltb, min, arith,
}
use ambix.Config.{AddrInfo, dram_nodes, nvram_nodes}
use ambix.Controller.Migration.{Os, Plan, free_space_pages}
use ambix.Controller.Switch.{Side, fill_pages, fill_nodes, processed, switch_dram, switch_nvram}
use ambix.Controller.Switched.{Counts, switch_side-Counts}

module _ (os : Os) (page_size : ℕ) (candidates : ℕ → AddrInfo) where
  fill_pages-before :
      (source : ℕ → ℕ) (rounds j node : ℕ) (p : Plan) (i : ℕ)
      → i < p.n_processed + j
      → (fill_pages os page_size candidates source rounds j node p).addr i ≡ p.addr i
  unfolding fill_pages
  fill_pages-before source zero j node p i h = refl
  fill_pages-before source (suc rounds) j node p i h =
      fill_pages-before source rounds (j + 1) node _ i (omega arith) ∙ ground arith

  fill_pages-first :
      (source : ℕ → ℕ) (rounds node : ℕ) (p : Plan)
      → 0 < rounds
      → (fill_pages os page_size candidates source rounds 0 node p).addr p.n_processed
        ≡ (candidates (source 0)).addr
  unfolding fill_pages
  fill_pages-first source zero node p h = absurd (omega arith)
  fill_pages-first source (suc rounds) node p h =
      fill_pages-before source rounds 1 node _ p.n_processed (omega arith) ∙ ground arith

  fill_nodes-first :
      (w : os.World) (n : ℕ) (source : ℕ → ℕ → ℕ) (node : ℕ) (p : Plan)
      → p.n_processed < n
      → 0 < pos_part (free_space_pages os page_size candidates w node)
      → (fill_nodes os page_size candidates w n source (node ∷ []) p).addr p.n_processed
        ≡ (candidates (source p.n_processed 0)).addr
  unfolding fill_nodes
  fill_nodes-first w n source node p h f =
      let more : ltb p.n_processed n ≡ true = ground arith in
      let j =
        min (pos_part (free_space_pages os page_size candidates w node)) (n - p.n_processed) in
      rw more (fill_pages-first (source p.n_processed) j node p (omega arith))

  -- In a round of `do_switch` that begins with some pages processed, and with pages free on the other
  -- tier, each direction plans a next page to move: from NVRAM to DRAM the next candidate before the
  -- separator, but from DRAM to NVRAM the first candidate behind the separator again, whatever was
  -- processed.
  pub switch_restarts :
      (w : os.World) (n_found : ℕ) (side : Side)
      → Counts os page_size candidates n_found side
      → processed side < n_found
      → 0 < pos_part (free_space_pages os page_size candidates w 0)
      → 0 < pos_part (free_space_pages os page_size candidates w 2)
      → (d : Side × os.World) × (v : Side × os.World) × (switch_dram os page_size candidates n_found
            side w
          ≡ some d)
        × (switch_nvram os page_size candidates n_found side w ≡ some v)
        × (d.0.plan.addr (processed side) ≡ (candidates (n_found + 1)).addr)
        × (v.0.plan.addr (processed side) ≡ (candidates (processed side)).addr)
  switch_restarts w n side c h f g =
      let start : Plan = record (side.plan) { n_processed = processed side } in
      let d =
        switch_side-Counts os page_size candidates n (n + 1) (λ i j. n + 1 + j) nvram_nodes side w
          c in
      let v = switch_side-Counts os page_size candidates n 0 (λ i j. i + j) dram_nodes side w c in
      let z : processed side + 0 ≡ processed side = omega arith in
      let y : n + 1 + 0 ≡ n + 1 = omega arith in
      (
        d.0,
        v.0,
        d.1,
        v.1,
        ap (λ (p : Plan). p.addr (processed side)) d.5
            ∙ fill_nodes-first w n (λ i j. n + 1 + j) 2 start h g
            ∙ ap (λ (i : ℕ). (candidates i).addr) y,
        ap (λ (p : Plan). p.addr (processed side)) v.5
            ∙ fill_nodes-first w n (λ i j. i + j) 0 start h f
            ∙ ap (λ (i : ℕ). (candidates i).addr) z,
      )
