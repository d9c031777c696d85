-- ===== src/Controller/Exchange.antt =====
-- `do_switch` with room on every node and no failure exchanges all the pages.
use ambix.Base.{
  ℕ, suc, ◌+◌, ◌*◌, ◌≤◌, ◌<◌, ◌≡◌, refl, sym, ap, ◌∙◌, Bool, true, false, ◌&&◌, ◌||◌, some, [], ◌∷◌,
  ℤ, pos, pos_part, ◌+ℤ◌, ◌-ℤ◌, ltb, arith, inl, inr, Bool-cases,
}
use ambix.Config.{AddrInfo}
use ambix.Controller.Migration.{Os, Plan, free_space_pages}
use ambix.Controller.Migrated.{NeverFails, move_groups-end}
use ambix.Controller.Switch.{
  Side, fill_nodes, processed, moved_side, switch_side, goes_on, switch_rounds, fresh_side,
  switch_result, do_switch,
}
use ambix.Controller.Switched.{processed-sub}

module _ (os : Os) (page_size : ℕ) (candidates : ℕ → AddrInfo) (n : ℕ)
    (ok : NeverFails os page_size candidates)
    (roomy : (w : os.World) (node : ℕ)
      → n ≤ pos_part (free_space_pages os page_size candidates w node)) where
  fill_node-roomy :
      (w : os.World) (source : ℕ → ℕ → ℕ) (node : ℕ) (p : Plan)
      → p.n_processed ≤ n
      → (fill_nodes os page_size candidates w n source (node ∷ []) p).n_processed ≡ n
  unfolding fill_nodes
  fill_node-roomy w source node p h = let much = roomy w node in ground arith

  -- The side before the first round, and after it.
  record All (done : ℕ) (side : Side) : Type 0 where
    through : processed side ≡ done
    count : side.migrated ≡ pos done
    none_failed : side.e ≡ 0

  switch_side-All :
      (base : ℕ) (source : ℕ → ℕ → ℕ) (node : ℕ) (side : Side) (w : os.World)
      → 0 < n
      → All 0 side
      → (r : Side × os.World) × (switch_side os page_size candidates n base source
            (node ∷ [])
            side
            w
          ≡ some r)
        × All n r.0
  unfolding switch_side
  switch_side-All base source node side w h a =
      let start : Plan = record (side.plan) { n_processed = processed side } in
      let p = fill_nodes os page_size candidates w n source (node ∷ []) start in
      let full = fill_node-roomy w source node start (omega (arith, a.through)) in
      let more : ltb (processed side) p.n_processed ≡ true = ground (arith, h, full, a.through) in
      let moved =
        move_groups-end os page_size (λ i. candidates (base + i)) (p.n_processed + 1) p 0 side.e w
          (omega arith) (omega arith) in
      let none_failed : moved.0.1 ≡ 0 = moved.4 ok ∙ a.none_failed in
      (
        (
          record {
            plan = p;
            migrated = pos p.n_processed -ℤ pos moved.0.1;
            e = moved.0.1;
            free = true;
          },
          moved.0.2,
        ),
        rw more (ap (moved_side os page_size candidates p) moved.1),
        record {
          through = processed-sub os page_size candidates p.n_processed moved.0.1 ∙ full;
          count = difference p.n_processed moved.0.1 full none_failed;
          none_failed = none_failed;
        },
      )
    where
      difference : (a e : ℕ) → a ≡ n → e ≡ 0 → pos a -ℤ pos e ≡ pos n
      difference a e h z = ground arith

  goes : (d v : ℕ) (f g : Bool) → 0 < n → d ≡ 0 → f ≡ true → (ltb d n || ltb v n) && (f || g) ≡ true
  goes d v f g h z t = ground arith

  stops : (d v : ℕ) (f g : Bool) → d ≡ n → v ≡ n → (ltb d n || ltb v n) && (f || g) ≡ false
  stops d v f g h l = ground arith

  sums : (x y : ℤ) → x ≡ pos n → y ≡ pos n → x +ℤ y ≡ pos (2 * n)
  sums x y e f = ground arith

  two_rounds :
      (fuel : ℕ) (dram nvram : Side) (w : os.World)
      → 0 < n
      → All 0 dram
      → All 0 nvram
      → dram.free ≡ true
      → (w' : os.World) × (switch_result
            (switch_rounds os page_size candidates (suc (suc fuel)) n dram nvram w)
          ≡ some (pos (2 * n), w'))
  unfolding switch_rounds
  two_rounds fuel dram nvram w h a b f =
      let c = switch_side-All (n + 1) (λ i j. n + 1 + j) 2 dram w h a in
      let d = switch_side-All 0 (λ i j. i + j) 0 nvram c.0.1 h b in
      let r = c.0 in
      let v = d.0 in
      let more : goes_on n dram nvram ≡ true =
        goes (processed dram) (processed nvram) dram.free nvram.free h a.through f in
      let stop : goes_on n r.0 v.0 ≡ false =
        stops (processed r.0) (processed v.0) r.0.free v.0.free c.2.through d.2.through in
      let sum : r.0.migrated +ℤ v.0.migrated ≡ pos (2 * n) =
        sums r.0.migrated v.0.migrated c.2.count d.2.count in
      (v.1, rw (more, c.1, d.1, stop) (ap (λ x. some (x, v.1)) sum))

  no_rounds :
      (fuel : ℕ) (dram nvram : Side) (w : os.World)
      → n ≡ 0
      → All 0 dram
      → All 0 nvram
      → switch_result (switch_rounds os page_size candidates (suc fuel) n dram nvram w)
        ≡ some (pos (2 * n), w)
  unfolding switch_rounds
  no_rounds fuel dram nvram w z a b =
      let stop : goes_on n dram nvram ≡ false =
        stops (processed dram) (processed nvram) dram.free nvram.free (a.through ∙ sym z)
          (b.through ∙ sym z) in
      let zero_n : pos 0 ≡ pos n = ap pos (sym z) in
      rw stop (
        ap (λ x. some (x, w))
          (sums dram.migrated nvram.migrated (a.count ∙ zero_n) (b.count ∙ zero_n)))

  -- Where no move fails and each node has room for them all, `do_switch` exchanges all the pages of both
  -- tiers and returns their number.
  pub do_switch-full :
      (memory : Plan) (w : os.World)
      → (w' : os.World) × (do_switch os page_size candidates n memory w ≡ some (pos (2 * n), w'))
  unfolding do_switch
  do_switch-full memory w =
      let side = fresh_side memory in
      let none_done : All 0 side = record { through = refl; count = refl; none_failed = refl } in
      let e : 2 * n + 2 ≡ suc (suc (2 * n)) = omega arith in
      elim (Bool-cases (ltb 0 n)) [
        | inl some_pages ↦
            let r = two_rounds (2 * n) side side w (ground arith) none_done none_done refl in
            (
              r.0,
              ap (λ f. switch_result (switch_rounds os page_size candidates f n side side w)) e
                  ∙ r.1,
            )
        | inr no_pages ↦ (
          w,
          ap (λ f. switch_result (switch_rounds os page_size candidates f n side side w)) e
              ∙ no_rounds (suc (2 * n)) side side w (ground arith) none_done none_done,
        )
      ]
