-- ===== src/Placement/Walk/Tally.antt =====
-- The pages that a walk finds are the first that pass its test.
use ambix.Base.{
  ℕ, ◌<◌, ◌≡◌, sym, ap, ◌∙◌, Bool, true, false, Option, List, [], ◌∷◌, ◌++◌, arith, Bool-cases, inl,
  inr, take, length, slice, slice-update_end, length-slice, append-nil, take_all, length-append,
  take-take-append, take-append_filled,
}
use ambix.Config.{AddrInfo}
use ambix.Kernel.{Kernel, Task}
use ambix.Placement.State.{State}
use ambix.Placement.Callbacks.{Callback, found_all, candidate}
use ambix.Placement.Callbacks.Bounds.{Safe}
use ambix.Placement.Walk.Selection.{Selects, found_list}
use ambix.Placement.Walk.FirstFit.{Passes-found_list, found_all_iff}
use ambix.Placement.Walk.Visit.{Tallies, offer}

module _ (k : Kernel) (cb : Callback k) (test : Option k.Pte → Bool) (sel : Selects k cb test) where
  pub Selects-ends :
      (m addr : ℕ) (e : Option k.Pte) (s : State k.Space) → (cb m addr e s).0 ≡ found_all k s
  Selects-ends m addr e s = elim (Bool-cases (found_all k s)) [
    | inl all ↦ (sel.stops m addr e s all).0 ∙ sym all
    | inr more ↦ elim (Bool-cases (test e)) [
      | inl hit ↦ (sel.picks m addr e s more hit).0 ∙ sym more
      | inr miss ↦ (sel.skips m addr e s more miss).0 ∙ sym more
    ]
  ]

  pub Selects-same_pid :
      (m addr : ℕ) (e : Option k.Pte) (s : State k.Space) → (cb m addr e s).1.curr_pid ≡ s.curr_pid
  Selects-same_pid m addr e s = elim (Bool-cases (found_all k s)) [
    | inl all ↦ let p = (sel.stops m addr e s all).1 in p.pid
    | inr more ↦ elim (Bool-cases (test e)) [
      | inl hit ↦ ap (λ q. q.curr_pid) (sel.picks m addr e s more hit).1
      | inr miss ↦ let p = (sel.skips m addr e s more miss).1 in p.pid
    ]
  ]

  pub picks-found_list :
      (m addr : ℕ) (e : Option k.Pte) (s : State k.Space)
      → found_all k s ≡ false
      → test e ≡ true
      → found_list k (cb m addr e s).1 ≡ found_list k s ++ candidate k s addr ∷ []
  picks-found_list m addr e s more hit =
      ap (λ q. slice q.found_addrs 0 q.n_found) (sel.picks m addr e s more hit).1
      ∙ slice-update_end s.found_addrs s.n_found (candidate k s addr)

  module _ (b n : ℕ) (items : ℕ → Option Task) (count : ℕ) where
    abbrev IsReady : State k.Space → Type 0
    IsReady = Safe k b n items count

    abbrev HasFound : State k.Space → List AddrInfo → Type 0
    HasFound s xs = found_list k s ≡ take n xs

    full_length :
        (s : State k.Space) → IsReady s → found_all k s ≡ true → length (found_list k s) ≡ n
    full_length s r all =
        length-slice s.found_addrs 0 s.n_found
        ∙ (found_all_iff k n s r.bounded.target r.bounded.found).0 all

    takes_hit :
        (c : AddrInfo) (s : State k.Space) (xs : List AddrInfo)
        → s.n_found < n
        → HasFound s xs
        → found_list k s ++ c ∷ [] ≡ take n (xs ++ c ∷ [])
    takes_hit c s xs less h =
        let counted = length-slice s.found_addrs 0 s.n_found in
        let added = length-append (found_list k s) (c ∷ []) in
        sym (take_all n (found_list k s ++ c ∷ []) (omega arith))
        ∙ ap (λ ys. take n (ys ++ c ∷ [])) h
        ∙ take-take-append n xs (c ∷ [])

    takes :
        (m addr : ℕ) (e : Option k.Pte) (s : State k.Space) (xs : List AddrInfo)
        → IsReady s
        → found_all k s ≡ false
        → HasFound s xs
        → HasFound (cb m addr e s).1 (xs ++ offer k test s addr e)
    takes m addr e s xs r more h = elim (Bool-cases (test e)) [
      | inl hit ↦
          let less = (found_all_iff k n s r.bounded.target r.bounded.found).1 more in
          rw hit (picks-found_list m addr e s more hit ∙ takes_hit (candidate k s addr) s xs less h)
      | inr miss ↦
          rw (miss, append-nil) (Passes-found_list k s _ (sel.skips m addr e s more miss).1 ∙ h)
    ]

    pub found_Tallies : Tallies k test cb IsReady HasFound
    found_Tallies = record {
      ends = Selects-ends;
      same_pid = Selects-same_pid;
      takes = takes;
      stops = λ m addr e s xs all h. Passes-found_list k s _ (sel.stops m addr e s all).1 ∙ h;
      full = λ s xs ys r all h.
          h ∙ sym (take-append_filled n xs ys (ap length (sym h) ∙ full_length s r all));
      enters = λ s pid xs h. h;
    }
