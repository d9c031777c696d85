-- ===== src/Placement/Walk/Backup.antt =====
-- The pages that a walk backs up, as far as they can be wanted, are the first that pass a second test.
use ambix.Base.{
  ℕ, ◌+◌, ◌-◌, ◌≤◌, ◌≡◌, refl, sym, ap, ap₂, ◌∙◌, Bool, true, false, Option, List, [], ◌∷◌, ◌++◌,
  arith, Bool-cases, inl, inr, take, length, append-nil, subst, take_less, take-append_same,
  take-append_filled, length-take,
}
use ambix.Config.{AddrInfo}
use ambix.Kernel.{Kernel, Task}
use ambix.Placement.State.{State, Search, push_found}
use ambix.Placement.Callbacks.{Callback, found_all, candidate, has_room}
use ambix.Placement.Callbacks.Bounds.{Safe}
use ambix.Placement.Walk.Selection.{Selects}
use ambix.Placement.Walk.FirstFit.{found_all_iff}
use ambix.Placement.Walk.Backs.{Shelf, Backs}
use ambix.Placement.Walk.Visit.{Tallies, offer}
use ambix.Placement.Walk.Tally.{Selects-ends, Selects-same_pid}

module _ (k : Kernel) (cb : Callback k) (first second : Option k.Pte → Bool)
    (sel : Selects k cb first) (shelf : Shelf) (bk : Backs k shelf cb first second) (b n : ℕ)
    (items : ℕ → Option Task) (count : ℕ) where
  abbrev IsReady : State k.Space → Type 0
  IsReady = Safe k b n items count

  -- As many of the pages `ys` are backed up as can still be wanted.
  abbrev Keeps : Search → List AddrInfo → Type 0
  Keeps q ys = take (n - q.n_found) (shelf.items q) ≡ take (n - q.n_found) ys

  abbrev HasBackup : State k.Space → List AddrInfo → Type 0
  HasBackup s ys = Keeps s.search ys

  push_found-Keeps :
      (q : Search) (c : AddrInfo) (ys : List AddrInfo) → Keeps q ys → Keeps (push_found q c) ys
  push_found-Keeps q c ys h =
      ap (take (n - (q.n_found + 1))) (shelf.items-push_found q c)
      ∙ take_less (n - (q.n_found + 1)) (n - q.n_found) (shelf.items q) ys (omega arith) h

  push-Keeps :
      (q : Search) (c : AddrInfo) (ys : List AddrInfo)
      → Keeps q ys
      → Keeps (shelf.push q c) (ys ++ c ∷ [])
  push-Keeps q c ys h =
      ap₂ (λ m l. take (n - m) l) (shelf.n_found-push q c) (shelf.items-push q c)
      ∙ take-append_same (n - q.n_found) (shelf.items q) ys (c ∷ []) h
      ∙ ap (λ m. take (n - m) (ys ++ c ∷ [])) (sym (shelf.n_found-push q c))

  -- A list that is long enough already.
  enough-Keeps :
      (q : Search) (zs ys : List AddrInfo)
      → n - q.n_found ≤ shelf.size q
      → Keeps q ys
      → Keeps q (ys ++ zs)
  enough-Keeps q zs ys le h =
      let m = n - q.n_found in
      let counted = shelf.length-items q in
      let long : length (take m ys) ≡ m =
        ap length (sym h) ∙ length-take m (shelf.items q) ∙ omega arith in
      h ∙ sym (take-append_filled m ys zs long)

  takes-first :
      (m addr : ℕ) (e : Option k.Pte) (s : State k.Space) (ys : List AddrInfo)
      → found_all k s ≡ false
      → first e ≡ true
      → HasBackup s ys
      → HasBackup (cb m addr e s).1 ys
  takes-first m addr e s ys more hit h =
      subst (λ q. Keeps q ys) (sym (sel.picks m addr e s more hit).1)
        (push_found-Keeps s.search (candidate k s addr) ys h)

  takes-second :
      (m addr : ℕ) (e : Option k.Pte) (s : State k.Space) (ys : List AddrInfo)
      → IsReady s
      → found_all k s ≡ false
      → second e ≡ true
      → HasBackup s ys
      → HasBackup (cb m addr e s).1 (ys ++ candidate k s addr ∷ [])
  takes-second m addr e s ys r more hit h =
      let c = candidate k s addr in
      subst (λ q. Keeps q (ys ++ c ∷ [])) (sym (bk.backs m addr e s more hit))
        (elim (Bool-cases (has_room k s (shelf.size s.search))) [
          | inl room ↦ rw room (push-Keeps s.search c ys h)
          | inr none_left ↦
              let le : n - s.n_found ≤ shelf.size s.search = ground (arith, r.bounded.target) in
              rw none_left (enough-Keeps s.search (c ∷ []) ys le h)
        ])

  takes :
      (m addr : ℕ) (e : Option k.Pte) (s : State k.Space) (ys : List AddrInfo)
      → IsReady s
      → found_all k s ≡ false
      → HasBackup s ys
      → HasBackup (cb m addr e s).1 (ys ++ offer k second s addr e)
  takes m addr e s ys r more h = elim (Bool-cases (second e)) [
    | inl hit ↦ rw hit (takes-second m addr e s ys r more hit h)
    | inr miss ↦ elim (Bool-cases (first e)) [
      | inl found ↦ rw (miss, append-nil) (takes-first m addr e s ys more found h)
      | inr passed ↦
          rw (miss, append-nil)
            (subst (λ q. Keeps q ys) (sym (bk.leaves m addr e s more passed miss)) h)
    ]
  ]

  nothing_wanted :
      (s : State k.Space) (xs ys : List AddrInfo)
      → IsReady s
      → found_all k s ≡ true
      → take (n - s.n_found) xs ≡ take (n - s.n_found) ys
  nothing_wanted s xs ys r all =
      let same = (found_all_iff k n s r.bounded.target r.bounded.found).0 all in
      let z : n - s.n_found ≡ 0 = omega (arith, same) in rw z refl

  pub backup_Tallies : Tallies k second cb IsReady HasBackup
  backup_Tallies = record {
    ends = Selects-ends k cb first sel;
    same_pid = Selects-same_pid k cb first sel;
    takes = takes;
    stops = λ m addr e s ys all h. subst (λ q. Keeps q ys) (sym (bk.halts m addr e s all)) h;
    full = λ s xs ys r all h. nothing_wanted s (shelf.items s.search) (xs ++ ys) r all;
    enters = λ s pid ys h. ap (take (n - s.n_found)) (shelf.items-same_pid s.search pid) ∙ h;
  }
