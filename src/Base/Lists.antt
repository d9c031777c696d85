-- ===== src/Base/Lists.antt =====
-- Lists measured by native numbers, and arrays as functions from indices.
use Prim.Native.Nat.{ℕ, zero, suc, ◌+◌, ◌-◌, ◌≤◌, min, ◌<◌}
use mathlib.Core.Path.{◌≡◌, refl, sym, ap, ap₂, ◌∙◌}
use mathlib.Core.Bool.{Bool}
use mathlib.Core.List.{List, [], ◌∷◌, ◌++◌}
use native.Mathlib.Omega.{arith}
use ambix.Base.Tests.{◌==◌, if◌then◌else◌}

module _ {ℓ} {A : Type ℓ} where
  abbrev pub length : List A → ℕ
  length [] = 0
  length (x ∷ xs) = suc (length xs)

  pub length-append : (xs ys : List A) → length (xs ++ ys) ≡ length xs + length ys
  length-append [] ys = omega arith
  length-append (x ∷ xs) ys = omega (arith, length-append xs ys)

  abbrev pub take : ℕ → List A → List A
  take zero xs = []
  take (suc n) [] = []
  take (suc n) (x ∷ xs) = x ∷ take n xs

  -- The elements that pass a test, in order.
  abbrev pub keep : (A → Bool) → List A → List A
  keep test [] = []
  keep test (x ∷ xs) = if test x then x ∷ keep test xs else keep test xs

  -- `a[i] = v` on an array.
  abbrev pub update : (ℕ → A) → ℕ → A → ℕ → A
  update f i v j = if i == j then v else f j

  -- The `n` elements of an array from index `s` on.
  abbrev pub slice : (ℕ → A) → ℕ → ℕ → List A
  slice f s zero = []
  slice f s (suc n) = f s ∷ slice f (s + 1) n

  pub length-slice : (f : ℕ → A) (s n : ℕ) → length (slice f s n) ≡ n
  length-slice f s zero = refl
  length-slice f s (suc n) = ap suc (length-slice f (s + 1) n)

  pub slice-add : (f : ℕ → A) (s a b : ℕ) → slice f s (a + b) ≡ slice f s a ++ slice f (s + a) b
  slice-add f s zero b =
      let e : zero + b ≡ b = omega arith in let d : s + zero ≡ s = omega arith in rw (e, d)
  slice-add f s (suc a) b =
      let e : suc a + b ≡ suc (a + b) = omega arith in
      let d : s + suc a ≡ s + 1 + a = omega arith in
      rw (e, d) (ap (◌∷◌ (f s)) (slice-add f (s + 1) a b))

  -- Slices of two arrays agree where the arrays do.
  pub slice_ext :
      (f g : ℕ → A) (s t n : ℕ)
      → ((j : ℕ) → j < n → f (s + j) ≡ g (t + j))
      → slice f s n ≡ slice g t n
  slice_ext f g s t zero h = refl
  slice_ext f g s t (suc n) h =
      let d : s + 0 ≡ s = omega arith in
      let e : t + 0 ≡ t = omega arith in
      let head : f s ≡ g t = ap f (sym d) ∙ h 0 (omega arith) ∙ ap g e in
      ap₂ ◌∷◌ head (slice_ext f g (s + 1) (t + 1) n later)
    where
      later : (j : ℕ) → j < n → f (s + 1 + j) ≡ g (t + 1 + j)
      later j lt =
          let d : s + 1 + j ≡ s + (j + 1) = omega arith in
          let e : t + 1 + j ≡ t + (j + 1) = omega arith in rw (d, e) (h (j + 1) (omega arith))

  -- Writing behind a slice extends it.
  pub slice-update_end :
      (f : ℕ → A) (n : ℕ) (v : A) → slice (update f n v) 0 (n + 1) ≡ slice f 0 n ++ v ∷ []
  slice-update_end f n v =
      let z : 0 + n ≡ n = omega arith in
      let last : update f n v n ≡ v = ground arith in
      slice-add (update f n v) 0 n 1
      ∙ ap₂ ◌++◌ (slice_ext (update f n v) f 0 0 n (λ j lt. ground arith))
          (rw z (ap (λ x. x ∷ []) last))

  pub take-append_all : (n : ℕ) (xs : List A) → length xs ≤ n → take n (xs ++ []) ≡ xs
  take-append_all zero [] h = refl
  take-append_all zero (x ∷ xs) h = absurd (omega arith)
  take-append_all (suc n) [] h = refl
  take-append_all (suc n) (x ∷ xs) h = ap (◌∷◌ x) (take-append_all n xs (omega arith))

  pub take-append_full : (n : ℕ) (xs ys : List A) → length xs ≡ n → take n (xs ++ ys) ≡ xs
  take-append_full zero [] ys h = refl
  take-append_full zero (x ∷ xs) ys h = absurd (omega arith)
  take-append_full (suc n) [] ys h = absurd (omega arith)
  take-append_full (suc n) (x ∷ xs) ys h = ap (◌∷◌ x) (take-append_full n xs ys (omega arith))

  pub take-append :
      (n : ℕ) (xs ys : List A) → length xs ≤ n → take n (xs ++ ys) ≡ xs ++ take (n - length xs) ys
  take-append n [] ys h = let e : n ≡ n - 0 = omega arith in ap (λ m. take m ys) e
  take-append zero (x ∷ xs) ys h = absurd (omega arith)
  take-append (suc n) (x ∷ xs) ys h =
      let e : n - length xs ≡ suc n - length (x ∷ xs) = omega arith in
      ap (◌∷◌ x) (take-append n xs ys (omega arith) ∙ ap (λ m. xs ++ take m ys) e)

  pub take-slice : (c : ℕ) (f : ℕ → A) (s n : ℕ) → take c (slice f s n) ≡ slice f s (min c n)
  take-slice zero f s n = let e : 0 ≡ min 0 n = omega arith in ap (slice f s) e
  take-slice (suc c) f s zero = let e : 0 ≡ min (suc c) 0 = omega arith in ap (slice f s) e
  take-slice (suc c) f s (suc n) =
      let e : suc (min c n) ≡ min (suc c) (suc n) = omega arith in
      ap (◌∷◌ (f s)) (take-slice c f (s + 1) n) ∙ ap (slice f s) e

  pub keep-append :
      (test : A → Bool) (xs ys : List A) → keep test (xs ++ ys) ≡ keep test xs ++ keep test ys
  keep-append test [] ys = refl
  keep-append test (x ∷ xs) ys = ground (arith, keep-append test xs ys)
