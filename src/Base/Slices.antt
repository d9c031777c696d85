-- ===== src/Base/Slices.antt =====
-- More on the front of a list and the slices of an array.
use Prim.Native.Nat.{ℕ, zero, suc, ◌+◌, ◌-◌, ◌≤◌, min, ◌<◌}
use mathlib.Core.Path.{◌≡◌, refl, sym, ap, ap₂, ◌∙◌}
use mathlib.Core.Bool.{false}
use mathlib.Core.List.{List, [], ◌∷◌, ◌++◌}
use native.Mathlib.Omega.{arith}
use ambix.Base.Tests.{ltb, if◌then◌else◌}
use ambix.Base.Lists.{
  length, take, slice, length-slice, slice-add, slice_ext, take-append, take-slice,
}

module _ {ℓ} {A : Type ℓ} where
  pub take-take-append : (n : ℕ) (xs ys : List A) → take n (take n xs ++ ys) ≡ take n (xs ++ ys)
  take-take-append zero xs ys = refl
  take-take-append (suc n) [] ys = refl
  take-take-append (suc n) (x ∷ xs) ys = ap (◌∷◌ x) (take-take-append n xs ys)

  -- A list that fills the count leaves no room for another.
  pub take-append_filled :
      (n : ℕ) (xs ys : List A) → length (take n xs) ≡ n → take n (xs ++ ys) ≡ take n xs
  take-append_filled zero xs ys e = refl
  take-append_filled (suc n) [] ys e = absurd (omega arith)
  take-append_filled (suc n) (x ∷ xs) ys e = ap (◌∷◌ x) (take-append_filled n xs ys (omega arith))

  pub take-take : (a b : ℕ) (xs : List A) → a ≤ b → take a (take b xs) ≡ take a xs
  take-take zero b xs h = refl
  take-take (suc a) zero xs h = absurd (omega arith)
  take-take (suc a) (suc b) [] h = refl
  take-take (suc a) (suc b) (x ∷ xs) h = ap (◌∷◌ x) (take-take a b xs (omega arith))

  pub length-take : (n : ℕ) (xs : List A) → length (take n xs) ≡ min n (length xs)
  length-take zero xs = omega arith
  length-take (suc n) [] = omega arith
  length-take (suc n) (x ∷ xs) = omega (arith, length-take n xs)

  pub take_all : (n : ℕ) (xs : List A) → length xs ≤ n → take n xs ≡ xs
  take_all zero [] h = refl
  take_all zero (x ∷ xs) h = absurd (omega arith)
  take_all (suc n) [] h = refl
  take_all (suc n) (x ∷ xs) h = ap (◌∷◌ x) (take_all n xs (omega arith))

  -- What two lists have in common at the front, they have with less of it, and with more behind it.
  pub take_less : (a b : ℕ) (xs ys : List A) → a ≤ b → take b xs ≡ take b ys → take a xs ≡ take a ys
  take_less a b xs ys h e = sym (take-take a b xs h) ∙ ap (take a) e ∙ take-take a b ys h

  pub take-append_same :
      (n : ℕ) (xs ys zs : List A) → take n xs ≡ take n ys → take n (xs ++ zs) ≡ take n (ys ++ zs)
  take-append_same n xs ys zs e =
      sym (take-take-append n xs zs) ∙ ap (λ l. take n (l ++ zs)) e ∙ take-take-append n ys zs

  pub take-nil : (n : ℕ) → take {A = A} n [] ≡ []
  take-nil zero = refl
  take-nil (suc n) = refl

  -- The first elements of one list, and behind them as many of another as are still wanted.
  pub take_two :
      (n : ℕ) (xs first ys second : List A)
      → length xs ≤ n
      → xs ≡ take n first
      → take (n - length xs) ys ≡ take (n - length xs) second
      → take n (xs ++ ys) ≡ take n (first ++ second)
  take_two n xs first ys second h e f =
      take-append n xs ys h
      ∙ ap (◌++◌ xs) f
      ∙ sym (take-append n xs second h)
      ∙ ap (λ l. take n (l ++ second)) e
      ∙ take-take-append n first second

  -- A count that fits the first list leaves no difference behind it.
  pub take-take_first :
      (c n : ℕ) (xs ys : List A) → c ≤ n → take c (take n xs ++ ys) ≡ take c (xs ++ ys)
  take-take_first zero n xs ys h = refl
  take-take_first (suc c) zero xs ys h = absurd (omega arith)
  take-take_first (suc c) (suc n) [] ys h = refl
  take-take_first (suc c) (suc n) (x ∷ xs) ys h =
      ap (◌∷◌ x) (take-take_first c n xs ys (omega arith))

  -- Two arrays read one behind the other.
  pub slice-join :
      (f g : ℕ → A) (a b c : ℕ)
      → c ≤ a + b
      → slice (λ i. if ltb i a then f i else g (i - a)) 0 c ≡ take c (slice f 0 a ++ slice g 0 b)
  slice-join f g a b c h =
      let joined = λ (i : ℕ). if ltb i a then f i else g (i - a) in
      let z : 0 + a ≡ a = omega arith in
      let m : c ≡ min c (a + b) = omega arith in
      let both : slice joined 0 (a + b) ≡ slice f 0 a ++ slice g 0 b =
        slice-add joined 0 a b
        ∙ ap (λ i. slice joined 0 a ++ slice joined i b) z
        ∙ ap₂ ◌++◌ (slice_ext joined f 0 0 a (λ j l. ground arith)) (
            slice_ext joined g a 0 b (λ j l.
              let d : a + j - a ≡ j = omega arith in
              let e : 0 + j ≡ j = omega arith in
              let past : ltb (a + j) a ≡ false = ground arith in rw (past, d, e) refl)) in
      ap (slice joined 0) m ∙ sym (take-slice c joined 0 (a + b)) ∙ ap (take c) both

  -- Slices that agree, agree at each place.
  pub slice_at :
      (f g : ℕ → A) (s n i : ℕ) → slice f s n ≡ slice g s n → i < n → f (s + i) ≡ g (s + i)
  slice_at f g s zero i e h = absurd (omega arith)
  slice_at f g s (suc n) zero e h = let z : s ≡ s + 0 = omega arith in rw (← z) (cc e)
  slice_at f g s (suc n) (suc i) e h =
      let z : s + 1 + i ≡ s + suc i = omega arith in
      rw (← z) (slice_at f g (s + 1) n i (cc e) (omega arith))

  -- Lists of one length are the front of a list in one way.
  pub append_split :
      (xs ys us vs : List A) → length xs ≡ length ys → xs ++ us ≡ ys ++ vs → (xs ≡ ys) × (us ≡ vs)
  append_split [] [] us vs l e = (refl, e)
  append_split [] (y ∷ ys) us vs l e = absurd (omega arith)
  append_split (x ∷ xs) [] us vs l e = absurd (omega arith)
  append_split (x ∷ xs) (y ∷ ys) us vs l e =
      let r = append_split xs ys us vs (omega arith) (cc e) in
      let head : x ≡ y = cc e in (ap₂ ◌∷◌ head r.0, r.1)

  -- An array whose front is that of another, with the first of some list behind it.
  pub slice_split :
      (f g : ℕ → A) (a d r : ℕ) (ys : List A)
      → slice f 0 (a + d) ≡ take (a + r) (slice g 0 a ++ ys)
      → (slice f 0 a ≡ slice g 0 a) × (slice f a d ≡ take r ys)
  slice_split f g a d r ys e =
      let z : 0 + a ≡ a = omega arith in
      let m : a + r - a ≡ r = omega arith in
      let long = length-slice g 0 a in
      let cut : take (a + r) (slice g 0 a ++ ys) ≡ slice g 0 a ++ take r ys =
        take-append (a + r) (slice g 0 a) ys (omega arith)
        ∙ ap (λ c. slice g 0 a ++ take (a + r - c) ys) long
        ∙ ap (λ c. slice g 0 a ++ take c ys) m in
      let both : slice f 0 a ++ slice f a d ≡ slice g 0 a ++ take r ys =
        ap (λ i. slice f 0 a ++ slice f i d) (sym z) ∙ sym (slice-add f 0 a d) ∙ e ∙ cut in
      append_split (slice f 0 a) (slice g 0 a) _ _ (length-slice f 0 a ∙ sym long) both
