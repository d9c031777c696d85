-- ===== src/Placement/Walk/Negative.antt =====
-- What happens on a negative count. `process_req` hands it on to the walks, where the test for
-- equality never stops a callback.
use ambix.Base.{
  ℕ, ◌+◌, ◌≤◌, ◌<◌, ◌≡◌, ap, sym, subst, ltb, ◌∙◌, Bool, true, false, Option, negsuc, List, [], ◌∷◌,
  ◌⊎◌, arith, Bool-cases, inl, inr, length,
}
use ambix.Config.{AddrInfo, max_n_find}
use ambix.Kernel.{Kernel}
use ambix.Placement.State.{State, Search, push_found}
use ambix.Placement.Callbacks.{Callback, found_all, candidate}
use ambix.Placement.Walk.{walk_entries}
use ambix.Placement.Walk.Selection.{Passes, Selects, candidates_of}

-- The next find goes to a slot of the array or one past it, or a fault has been met.
abbrev AtRisk : Search → Type 0
AtRisk q = (q.n_found ≤ max_n_find + 1) ⊎ (q.fault ≡ true)

push_found-AtRisk : (q : Search) (e : AddrInfo) → AtRisk q → AtRisk (push_found q e)
push_found-AtRisk q e (inr f) = inr (ground arith)
push_found-AtRisk q e (inl h) = elim (Bool-cases (ltb max_n_find q.n_found)) [
  | inl last ↦ inr (ground arith)
  | inr room ↦ inl (ground arith)
]

Passes-AtRisk :
    {k : Kernel} (s t : State k.Space) → Passes k s t → AtRisk s.search → AtRisk t.search
Passes-AtRisk s t p (inl h) = inl (omega (arith, p.count))
Passes-AtRisk s t p (inr f) = inr (ground (arith, p.fault))

module _ (k : Kernel) (cb : Callback k) (test : Option k.Pte → Bool) (sel : Selects k cb test)
    (c : ℕ) where
  never_full : (s : State k.Space) → s.n_to_find ≡ negsuc c → found_all k s ≡ false
  never_full s e = rw e

  overflow :
      (m : ℕ) (es : List (ℕ × Option k.Pte)) (s : State k.Space)
      → s.n_to_find ≡ negsuc c
      → AtRisk s.search
      → max_n_find + 1 < s.n_found + length (candidates_of k test s.curr_pid es)
      → (walk_entries k cb m es s).fault ≡ true
  unfolding walk_entries
  overflow m [] s e (inl h) l = absurd (omega arith)
  overflow m [] s e (inr h) l = h
  overflow m ((addr, pte) ∷ es) s e h l = elim (Bool-cases (test pte)) [
    | inl hit ↦
        let r = sel.picks m addr pte s (never_full s e) hit in
        let s' = (cb m addr pte s).1 in
        let target : s'.n_to_find ≡ negsuc c = ap (λ q. q.n_to_find) r.1 ∙ e in
        let pid : s'.curr_pid ≡ s.curr_pid = ap (λ q. q.curr_pid) r.1 in
        let count : s'.n_found ≡ s.n_found + 1 = ap (λ q. q.n_found) r.1 in
        let more = rw hit at l in
        let left = ap (λ p. length (candidates_of k test p es)) pid in
        rw (r.0) (
          overflow m es s' target
            (subst AtRisk (sym r.1) (push_found-AtRisk s.search (candidate k s addr) h))
            (omega arith))
    | inr miss ↦
        let r = sel.skips m addr pte s (never_full s e) miss in
        let s' = (cb m addr pte s).1 in
        let p : Passes k s s' = r.1 in
        let more = rw miss at l in
        let left = ap (λ q. length (candidates_of k test q es)) p.pid in
        rw (r.0) (overflow m es s' (p.target ∙ e) (Passes-AtRisk s s' p h) (omega (arith, p.count)))
  ]

  -- On a negative count, with nothing found yet, a walk whose callback selects by a test, over entries
  -- with more than 131072 candidates, writes behind `found_addrs`.
  pub negative_count_overflows :
      (m : ℕ) (es : List (ℕ × Option k.Pte)) (s : State k.Space)
      → s.n_to_find ≡ negsuc c
      → s.n_found ≡ 0
      → max_n_find + 1 < length (candidates_of k test s.curr_pid es)
      → (walk_entries k cb m es s).fault ≡ true
  negative_count_overflows m es s e z l = overflow m es s e (inl (omega arith)) (omega arith)
