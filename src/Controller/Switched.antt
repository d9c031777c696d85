-- ===== src/Controller/Switched.antt =====
-- How `do_switch` ends, and what it returns.
use ambix.Base.{
  ℕ, zero, suc, ◌+◌, ◌-◌, ◌*◌, ◌≤◌, ◌≡◌, refl, sym, ap, ◌∙◌, Bool, true, false, ◌||◌, some, List,
  [], ◌∷◌, ℤ, pos, pos_part, ◌+ℤ◌, ◌-ℤ◌, leb_ℤ, ltb, min, arith, ◌⊎◌, inl, inr, Bool-cases,
}
use ambix.Config.{AddrInfo, dram_nodes, nvram_nodes}
use ambix.Controller.Migration.{Os, Plan, free_space_pages, move_groups}
use ambix.Controller.Migrated.{NeverFails, move_groups-end}
use ambix.Controller.Switch.{
  Side, fill_pages, fill_nodes, processed, moved_side, switch_side, goes_on, switch_rounds,
  fresh_side, switch_result, do_switch,
}

module _ (os : Os) (page_size : ℕ) (candidates : ℕ → AddrInfo) where
  n_processed-fill_pages :
      (source : ℕ → ℕ) (rounds j node : ℕ) (p : Plan)
      → (fill_pages os page_size candidates source rounds j node p).n_processed ≡ p.n_processed
  unfolding fill_pages
  n_processed-fill_pages source zero j node p = refl
  n_processed-fill_pages source (suc rounds) j node p =
      n_processed-fill_pages source rounds (j + 1) node _

  fill_nodes_bounds :
      (w : os.World) (n : ℕ) (source : ℕ → ℕ → ℕ) (nodes : List ℕ) (p : Plan)
      → p.n_processed ≤ n
      → let q = fill_nodes os page_size candidates w n source nodes p in
        (p.n_processed ≤ q.n_processed) × (q.n_processed ≤ n)
  unfolding fill_nodes
  fill_nodes_bounds w n source [] p h = omega arith
  fill_nodes_bounds w n source (node ∷ nodes) p h = elim (Bool-cases (ltb p.n_processed n)) [
    | inl more ↦
        let j =
          min (pos_part (free_space_pages os page_size candidates w node)) (n - p.n_processed) in
        let filled = fill_pages os page_size candidates (source p.n_processed) j 0 node p in
        let ih =
          fill_nodes_bounds w n source nodes (record filled { n_processed = p.n_processed + j })
            (omega arith) in
        rw more (omega arith, omega arith)
    | inr full ↦ rw full (omega arith)
  ]

  -- The counts of one direction: the pages migrated and the failures make up the pages processed.
  pub record Counts (n : ℕ) (side : Side) : Type 0 where
    pub sum : side.migrated ≡ pos (processed side) -ℤ pos side.e
    pub most : processed side ≤ n

  pub processed-sub : (a e : ℕ) → pos_part (pos a -ℤ pos e +ℤ pos e) ≡ a
  processed-sub a e = ground arith

  counted :
      (n a e : ℕ) (plan : Plan) (free : Bool)
      → a ≤ n
      → Counts n (record { plan = plan; migrated = pos a -ℤ pos e; e = e; free = free })
  counted n a e plan free h = record {
    sum = ap (λ x. pos x -ℤ pos e) (sym (processed-sub a e));
    most = omega (arith, processed-sub a e);
  }

  -- Half a round ends. Its plan is the one that `fill_nodes` makes.
  pub switch_side-Counts :
      (n base : ℕ) (source : ℕ → ℕ → ℕ) (nodes : List ℕ) (side : Side) (w : os.World)
      → Counts n side
      → (r : Side × os.World) × (switch_side os page_size candidates n base source nodes side w
          ≡ some r)
        × Counts n r.0
        × (processed side ≤ processed r.0)
        × (r.0.free ≡ ltb (processed side) (processed r.0))
        × (r.0.plan
            ≡ fill_nodes os page_size candidates w n source nodes
                (record (side.plan) { n_processed = processed side }))
  unfolding switch_side
  switch_side-Counts n base source nodes side w c =
      let (grows, fits) = fill_nodes_bounds w n source nodes start c.most in
      elim (Bool-cases (ltb (processed side) p.n_processed)) [
        | inl more ↦
            let back = processed-sub p.n_processed moved.0.1 in
            (
              (
                record {
                  plan = p;
                  migrated = pos p.n_processed -ℤ pos moved.0.1;
                  e = moved.0.1;
                  free = true;
                },
                moved.0.2,
              ),
              rw more (ap (moved_side os page_size candidates p) moved.1),
              counted n p.n_processed moved.0.1 p true fits,
              omega (arith, back, grows),
              sym (ap (ltb (processed side)) back ∙ more),
              refl,
            )
        | inr none_free ↦
            let back = processed-sub p.n_processed side.e in
            (
              (
                record {
                  plan = p;
                  migrated = pos p.n_processed -ℤ pos side.e;
                  e = side.e;
                  free = false;
                },
                w,
              ),
              rw none_free refl,
              counted n p.n_processed side.e p false fits,
              omega (arith, back, grows),
              sym (ap (ltb (processed side)) back ∙ none_free),
              refl,
            )
      ]
    where
      start : Plan
      start = record (side.plan) { n_processed = processed side }

      p : Plan
      p = fill_nodes os page_size candidates w n source nodes start

      moved :
          (r : ℕ × ℕ × os.World) × (move_groups os page_size
              (λ i. candidates (base + i))
              (p.n_processed + 1)
              p
              0
              side.e
              w
            ≡ some r)
          × (r.0 ≡ p.n_processed)
          × (r.1 ≤ side.e + (r.0 - 0))
          × (NeverFails os page_size (λ i. candidates (base + i)) → r.1 ≡ side.e)
      moved =
          move_groups-end os page_size (λ i. candidates (base + i)) (p.n_processed + 1) p 0 side.e w
            (omega arith) (omega arith)

  -- How the loop ends.
  record Ended (n fuel : ℕ) (dram nvram : Side) (w : os.World) : Type 0 where
    result : Side × Side × os.World
    returns : switch_rounds os page_size candidates fuel n dram nvram w ≡ some result
    dram_counts : Counts n result.0
    nvram_counts : Counts n result.1
    stopped : goes_on n result.0 result.1 ≡ false

  progress :
      (n fuel d v d' v' : ℕ) (d_free v_free : Bool)
      → d_free ≡ ltb d d'
      → v_free ≡ ltb v v'
      → d ≤ d'
      → v ≤ v'
      → n ≤ suc fuel + d + v
      → (d_free || v_free ≡ false) ⊎ (n ≤ fuel + d' + v')
  progress n fuel d v d' v' d_free v_free e f h l b = elim (Bool-cases (d_free || v_free)) [
    | inl some_free ↦ inr (ground arith)
    | inr none_free ↦ inl none_free
  ]

  -- A round with free pages uses up one round of fuel for each page at most, and a round without is
  -- followed by no other.
  switch_rounds-Ended :
      (n fuel : ℕ) (dram nvram : Side) (w : os.World)
      → 1 ≤ fuel
      → (dram.free || nvram.free ≡ false) ⊎ (2 * n + 2 ≤ fuel + processed dram + processed nvram)
      → Counts n dram
      → Counts n nvram
      → Ended n fuel dram nvram w
  unfolding switch_rounds
  switch_rounds-Ended n zero dram nvram w h m c d = absurd (omega arith)
  switch_rounds-Ended n (suc fuel) dram nvram w h m c d = elim (Bool-cases (goes_on n dram nvram)) [
    | inr stop ↦ record {
      result = (dram, nvram, w);
      returns = rw stop refl;
      dram_counts = c;
      nvram_counts = d;
      stopped = stop;
    }
    | inl more ↦
        let a = switch_side-Counts n (n + 1) (λ i j. n + 1 + j) nvram_nodes dram w c in
        let b = switch_side-Counts n 0 (λ i j. i + j) dram_nodes nvram a.0.1 d in
        let left : 2 * n + 2 ≤ suc fuel + processed dram + processed nvram =
          ground (arith, m, more) in
        let goes =
          progress (2 * n + 2) fuel (processed dram) (processed nvram) (processed a.0.0)
            (processed b.0.0) a.0.0.free b.0.0.free a.4 b.4 a.3 b.3 left in
        let e =
          switch_rounds-Ended n fuel a.0.0 b.0.0 b.0.1 (ground (arith, left, more, c.most, d.most))
            goes a.2 b.2 in
        record {
          result = e.result;
          returns = rw (more, a.1, b.1) (e.returns);
          dram_counts = e.dram_counts;
          nvram_counts = e.nvram_counts;
          stopped = e.stopped;
        }
  ]

  fresh-Counts : (n : ℕ) (memory : Plan) → Counts n (fresh_side memory)
  fresh-Counts n memory = record { sum = refl; most = omega arith }

  add_difference-le :
      (a b e f n : ℕ)
      → a ≤ n
      → b ≤ n
      → leb_ℤ ((pos a -ℤ pos e) +ℤ (pos b -ℤ pos f)) (pos (2 * n)) ≡ true
  add_difference-le a b e f n h l = ground arith

  -- `do_switch` ends, and returns at most twice the number of pages of each tier.
  pub do_switch_lem :
      (n_found : ℕ) (memory : Plan) (w : os.World)
      → (r : ℤ × os.World) × (do_switch os page_size candidates n_found memory w ≡ some r)
        × (leb_ℤ r.0 (pos (2 * n_found)) ≡ true)
  unfolding do_switch
  do_switch_lem n memory w =
      let side = fresh_side memory in
      let e =
        switch_rounds-Ended n (2 * n + 2) side side w (omega arith) (inr (omega arith))
          (fresh-Counts n memory) (fresh-Counts n memory) in
      let c = e.dram_counts in
      let d = e.nvram_counts in
      let r = e.result in
      (
        (r.0.migrated +ℤ r.1.migrated, r.2),
        ap switch_result e.returns,
        rw (c.sum, d.sum)
            (add_difference-le (processed r.0) (processed r.1) r.0.e r.1.e n c.most d.most),
      )
