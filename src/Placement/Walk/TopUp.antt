-- ===== src/Placement/Walk/TopUp.antt =====
-- The backup candidates that `mem_walk` adds when a walk finds too little.
use ambix.Base.{
  ℕ, zero, suc, ◌+◌, ◌-◌, ◌≤◌, ◌≡◌, refl, sym, ap, ap₂, ◌∙◌, ℤ, pos, negsuc, if◌then◌else◌, arith,
  Bool-cases, inl, inr, min, ltb, leb, ◌&&◌, List, ◌++◌, slice, take, length-slice, slice-add,
  slice_ext, take-append, take-slice, append-nil,
}
use ambix.Config.{AddrInfo}
use ambix.Kernel.{Kernel}
use ambix.Placement.State.{State, push_found}
use ambix.Placement.Walk.{add_backups, top_up_rounds, is_done, result_of, top_up}
use ambix.Placement.Walk.Selection.{found_list}

pub n_found-add_backups :
    (k : Kernel) (rounds i : ℕ) (s : State k.Space)
    → (add_backups k rounds i s).n_found ≡ s.n_found + rounds
unfolding add_backups
n_found-add_backups k zero i s = omega arith
n_found-add_backups k (suc rounds) i s = omega (arith, n_found-add_backups k rounds (i + 1))

pub add_backups-found :
    (k : Kernel) (rounds i : ℕ) (s : State k.Space) (j : ℕ)
    → (add_backups k rounds i s).found_addrs j ≡ (
        if leb s.n_found j && ltb j (s.n_found + rounds)
        then s.backup_addrs (i + (j - s.n_found))
        else s.found_addrs j)
unfolding add_backups
add_backups-found k zero i s j = ground arith
add_backups-found k (suc rounds) i s j =
    let s' : State k.Space = record s { search = push_found s.search (s.backup_addrs i) } in
    ground (arith, add_backups-found k rounds (i + 1) s' j)

module _ (k : Kernel) where
  -- The backup candidates, in order.
  abbrev pub backup_list : State k.Space → List AddrInfo
  backup_list s = slice s.backup_addrs 0 s.n_backup

  found_list-add_backups :
      (rounds : ℕ) (s : State k.Space)
      → found_list k (add_backups k rounds 0 s) ≡ found_list k s ++ slice s.backup_addrs 0 rounds
  found_list-add_backups rounds s =
      let t = add_backups k rounds 0 s in
      let z : 0 + s.n_found ≡ s.n_found = omega arith in
      ap (slice t.found_addrs 0) (n_found-add_backups k rounds 0 s)
      ∙ slice-add t.found_addrs 0 s.n_found rounds
      ∙ ap (λ m. slice t.found_addrs 0 s.n_found ++ slice t.found_addrs m rounds) z
      ∙ ap₂ ◌++◌
          (slice_ext t.found_addrs s.found_addrs 0 0 s.n_found (λ j l.
            let z : 0 + j ≡ j = omega arith in
            let e = add_backups-found k rounds 0 s j in rw z (ground arith)))
          (slice_ext t.found_addrs s.backup_addrs s.n_found 0 rounds (λ j l.
            let e = add_backups-found k rounds 0 s (s.n_found + j) in
            let d : s.n_found + j - s.n_found ≡ j = omega arith in ground arith))

  -- The first `n` of the pages found and backed up.
  take-found_list :
      (n : ℕ) (s : State k.Space)
      → s.n_found ≤ n
      → take n (found_list k s ++ backup_list s)
        ≡ found_list k s ++ slice s.backup_addrs 0 (min (n - s.n_found) s.n_backup)
  take-found_list n s h =
      let len = length-slice s.found_addrs 0 s.n_found in
      take-append n (found_list k s) (backup_list s) (omega arith)
      ∙ ap (λ m. found_list k s ++ take (n - m) (backup_list s)) len
      ∙ ap (◌++◌ (found_list k s)) (take-slice (n - s.n_found) s.backup_addrs 0 s.n_backup)

  n_to_find-add_backups :
      (rounds i : ℕ) (s : State k.Space) → (add_backups k rounds i s).n_to_find ≡ s.n_to_find
  unfolding add_backups
  n_to_find-add_backups zero i s = refl
  n_to_find-add_backups (suc rounds) i s =
      n_to_find-add_backups rounds (i + 1)
        (record s { search = push_found s.search (s.backup_addrs i) })

  -- The pages found, then so many of the backup.
  abbrev topped : State k.Space → ℕ → List AddrInfo
  topped s rounds = found_list k s ++ slice s.backup_addrs 0 rounds

  topped-zero : (s : State k.Space) (rounds : ℕ) → rounds ≡ 0 → found_list k s ≡ topped s rounds
  topped-zero s rounds e = sym (ap (topped s) e ∙ append-nil (found_list k s))

  abbrev Topped : ℕ → State k.Space → ℤ × State k.Space → Type 0
  Topped n s r =
      (found_list k r.1 ≡ topped s (min (n - s.n_found) s.n_backup))
      × (r.0 ≡ (if leb n (s.n_found + s.n_backup) then pos 0 else negsuc 0))

  added-Topped :
      (n : ℕ) (s : State k.Space)
      → s.n_to_find ≡ pos n
      → s.n_found ≤ n
      → Topped n s (result_of k (add_backups k (top_up_rounds k s) 0 s))
  added-Topped n s target h =
      let rounds : top_up_rounds k s ≡ min (n - s.n_found) s.n_backup = ground arith in
      let counted = n_found-add_backups k (top_up_rounds k s) 0 s in
      let same = n_to_find-add_backups (top_up_rounds k s) 0 s in
      (found_list-add_backups (top_up_rounds k s) s ∙ ap (topped s) rounds, ground arith)

  top_up-Topped :
      (n : ℕ) (s : State k.Space) → s.n_to_find ≡ pos n → s.n_found ≤ n → Topped n s (top_up k s)
  unfolding top_up
  top_up-Topped n s target h =
      let more = added-Topped n s target h in
      elim (Bool-cases (is_done k s)) [
        | inl done ↦ rw done (topped-zero s _ (ground arith), ground arith)
        | inr short ↦ elim (Bool-cases (ltb 0 s.n_backup)) [
          | inl some_left ↦ rw (short, some_left) more
          | inr none_left ↦ rw (short, none_left) (topped-zero s _ (ground arith), ground arith)
        ]
      ]

  -- What follows a walk that found at most the `n` pages asked for: the first `n` of those found and
  -- backed up are left, and the result is 0 exactly when these are `n`.
  pub top_up_lem :
      (n : ℕ) (s : State k.Space)
      → s.n_to_find ≡ pos n
      → s.n_found ≤ n
      → (found_list k (top_up k s).1 ≡ take n (found_list k s ++ backup_list s))
        × ((top_up k s).0 ≡ (if leb n (s.n_found + s.n_backup) then pos 0 else negsuc 0))
  top_up_lem n s target h =
      let t = top_up-Topped n s target h in (t.0 ∙ sym (take-found_list n s h), t.1)
