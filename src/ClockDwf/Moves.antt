-- ===== src/ClockDwf/Moves.antt =====
-- What `do_migration` and `do_switch` of clockdwf-ctl.c move, where no move fails.
use ambix.Base.{
  ℕ, zero, suc, ◌+◌, ◌-◌, ◌<◌, ◌≡◌, refl, ◌∙◌, sym, ap, true, false, some, List, [], ◌∷◌, ℤ, ltb,
  if◌then◌else◌, arith, slice,
}
use ambix.Config.{AddrInfo}
use ambix.Controller.Migration.{Os}
use ambix.ClockDwf.Migration.{migrate_groups, do_migration, move_page, move_pages_from}
use ambix.ClockDwf.Groups.{EndsAt, group_end_lem}

-- The documented behaviour of `move_pages` where it does not fail: moving several pages of a process
-- is moving them one after the other.
pub record MoveLaws (os : Os) : Type 0 where
  pub works :
      (w : os.World) (pid : ℤ) (addr dest : List ℕ) → (os.move_pages w pid addr dest).0 ≡ false
  pub no_pages : (w : os.World) (pid : ℤ) → (os.move_pages w pid [] []).1 ≡ w
  pub one_by_one :
      (w : os.World) (pid : ℤ) (a d : ℕ) (addr dest : List ℕ)
      → (os.move_pages w pid (a ∷ addr) (d ∷ dest)).1
        ≡ (os.move_pages (os.move_pages w pid (a ∷ []) (d ∷ [])).1 pid addr dest).1

module _ (os : Os) (laws : MoveLaws os) (candidates : ℕ → AddrInfo) where
  -- So many candidates from `i` on, each moved once, as a page of its own process.
  abbrev pub move_each : ℕ → ℕ → ℕ → os.World → os.World
  move_each dest_node zero i w = w
  move_each dest_node (suc rounds) i w =
      move_each dest_node rounds (i + 1) (move_page os candidates i dest_node w).1

  move_each-add :
      (dest_node a b i : ℕ) (w : os.World)
      → move_each dest_node (a + b) i w ≡ move_each dest_node b (i + a) (move_each dest_node a i w)
  move_each-add dest_node zero b i w =
      let z : zero + b ≡ b = omega arith in let e : i + zero ≡ i = omega arith in rw (z, e) refl
  move_each-add dest_node (suc a) b i w =
      let z : suc a + b ≡ suc (a + b) = omega arith in
      let e : i + suc a ≡ i + 1 + a = omega arith in
      rw (z, e) (move_each-add dest_node a b (i + 1) (move_page os candidates i dest_node w).1)

  move_pages-slice :
      (dest_nodes : ℕ → ℕ) (dest_node : ℕ) (pid : ℤ) (j i s : ℕ) (w : os.World)
      → ((m : ℕ) → m < j → (candidates (i + m)).pid_retval ≡ pid)
      → ((m : ℕ) → m < j → dest_nodes (s + m) ≡ dest_node)
      → (os.move_pages w pid (slice (λ c. (candidates c).addr) i j) (slice dest_nodes s j)).1
        ≡ move_each dest_node j i w
  move_pages-slice dest_nodes dest_node pid zero i s w own to = laws.no_pages w pid
  move_pages-slice dest_nodes dest_node pid (suc j) i s w own to =
      let i0 : i + 0 ≡ i = omega arith in
      let s0 : s + 0 ≡ s = omega arith in
      let own0 : (candidates (i + 0)).pid_retval ≡ pid = own 0 (omega arith) in
      let to0 : dest_nodes (s + 0) ≡ dest_node = to 0 (omega arith) in
      let here : (candidates i).pid_retval ≡ pid = rw i0 at own0 in
      let there : dest_nodes s ≡ dest_node = rw s0 at to0 in
      let single = λ (p : ℤ). (os.move_pages w p ((candidates i).addr ∷ []) (dest_node ∷ [])).1 in
      let later =
        move_pages-slice dest_nodes dest_node pid j (i + 1) (s + 1) (single pid)
          (λ m b.
            let e : i + 1 + m ≡ i + suc m = omega arith in rw e (own (suc m) (omega (arith, b))))
          (λ m b.
            let e : s + 1 + m ≡ s + suc m = omega arith in rw e (to (suc m) (omega (arith, b)))) in
      let addrs = slice (λ (c : ℕ). (candidates c).addr) (i + 1) j in
      ap
        (λ d.
          (os.move_pages w pid ((candidates i).addr ∷ addrs) (d ∷ slice dest_nodes (s + 1) j)).1)
        there
      ∙ laws.one_by_one w pid (candidates i).addr dest_node addrs (slice dest_nodes (s + 1) j)
      ∙ later
      ∙ ap (move_each dest_node j (i + 1)) (ap single (sym here))

  module _ (n : ℕ) (ends : EndsAt candidates n) where
    migrate_groups-each :
        (dest_nodes : ℕ → ℕ) (dest_node fuel i d m : ℕ) (w : os.World)
        → ((c : ℕ) → c < n → dest_nodes c ≡ dest_node)
        → i + d ≡ n
        → d < fuel
        → migrate_groups os candidates n dest_nodes fuel i m w
          ≡ some (m + d, move_each dest_node d i w)
    unfolding migrate_groups
    migrate_groups-each dest_nodes dest_node zero i d m w to e l = absurd (omega (arith, l))
    migrate_groups-each dest_nodes dest_node (suc fuel) i zero m w to e l =
        let done : ltb i n ≡ false = ground (arith, e) in
        let z : m + zero ≡ m = omega arith in rw (done, z) refl
    migrate_groups-each dest_nodes dest_node (suc fuel) i (suc d) m w to e l =
        let more : ltb i n ≡ true = ground (arith, e) in
        let g = group_end_lem candidates n ends i (omega (arith, e)) in
        let r = move_pages_from os candidates dest_nodes i g.0 w in
        let works =
          laws.works w (candidates i).pid_retval (slice (λ (c : ℕ). (candidates c).addr) i g.0)
            (slice dest_nodes 0 g.0) in
        let moved =
          move_pages-slice dest_nodes dest_node (candidates i).pid_retval g.0 i 0 w g.4
            (λ c b. to (0 + c) (omega (arith, b, g.3))) in
        let rest =
          migrate_groups-each dest_nodes dest_node fuel (i + g.0) (suc d - g.0) (m + g.0) r.1 to
            (omega (arith, e, g.3)) (omega (arith, l, g.2)) in
        let count : m + g.0 + (suc d - g.0) ≡ m + suc d = omega (arith, e, g.3) in
        let both : g.0 + (suc d - g.0) ≡ suc d = omega (arith, e, g.3) in
        let each = move_each-add dest_node g.0 (suc d - g.0) i w in
        rw (more, g.1, works)
          (rest
            ∙ ap (λ c. some (c, move_each dest_node (suc d - g.0) (i + g.0) r.1)) count
            ∙ ap (λ (v : os.World). some (m + suc d, move_each dest_node (suc d - g.0) (i + g.0) v))
                moved
            ∙ ap (λ (v : os.World). some (m + suc d, v)) (sym each)
            ∙ ap (λ (c : ℕ). some (m + suc d, move_each dest_node c i w)) both)

    -- Where no move fails, `do_migration` returns the number of candidates, and has moved each of them
    -- once, in order, as a page of its own process, to the node.
    pub do_migration-each :
        (dest_node : ℕ) (memory : ℕ → ℕ) (w : os.World)
        → do_migration os candidates dest_node n memory w ≡ some (n, move_each dest_node n 0 w)
    unfolding do_migration
    do_migration-each dest_node memory w =
        let dest_nodes = λ (i : ℕ). if ltb i n then dest_node else memory i in
        let z : 0 + n ≡ n = omega arith in
        migrate_groups-each dest_nodes dest_node (n + 1) 0 n 0 w (λ c b. ground (arith, b))
          (omega arith) (omega arith)
        ∙ ap (λ c. some (c, move_each dest_node n 0 w)) z
