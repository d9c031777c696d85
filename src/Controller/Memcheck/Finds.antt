-- ===== src/Controller/Memcheck/Finds.antt =====
-- The FINDs that `memcheck_placement` sends: their counts are in bounds.
use ambix.Base.{
  ℕ, ◌*◌, ◌∙◌, ◌/◌, ◌^◌, ◌≤◌, ◌<◌, ◌≡◌, ◌⊎◌, inl, inr, refl, ap, true, false, ℤ, pos, ◌==ℤ◌, arith,
  Bool-cases, min, [], ◌∷◌,
}
use native.Mathlib.Nat.{div-lt_iff_lt-mul}
use ambix.Config.{
  int_min, max_n_find, max_n_switch, dram_mode, nvram_mode, nvram_intensive_mode, nvram_clear,
  switch_mode,
}
use ambix.Controller.Migration.{to_int}
use ambix.Controller.Commands.{int_of_long}
use ambix.Placement.Request.Bounds.{int_min-pos}
use ambix.Controller.Memcheck.{
  Floats, Sys, Usage, measure, pages_of, used_share, free_space_tot_bytes, free_space_nodes,
  free_space_node, free_space_tot_per, quotient,
}

-- A number from 0 to 1.
abbrev pub IsShare : (fl : Floats) → fl.Float → Type 0
IsShare fl x = (fl.le (fl.literal 0 1) x ≡ true) × (fl.le x (fl.literal 1 1) ≡ true)

-- What the loop relies on of floating-point numbers, none of which is no number: the order is linear,
-- rounding is monotone, and a product of a share and a size up to 2^53 is truncated to at most the size.
pub record FloatLaws (fl : Floats) : Type 0 where
  pub lt_trans : (x y z : fl.Float) → fl.lt x y ≡ true → fl.lt y z ≡ true → fl.lt x z ≡ true
  pub not_le : (x y : fl.Float) → IsShare fl x → IsShare fl y → fl.le x y ≡ false → fl.lt y x ≡ true
  pub target-IsShare : IsShare fl (fl.literal 95 100)
  pub dram_limit-IsShare : IsShare fl (fl.literal 96 100)
  pub nvram_limit-IsShare : IsShare fl (fl.literal 98 100)
  pub target-dram_limit : fl.lt (fl.literal 95 100) (fl.literal 96 100) ≡ true
  pub target-nvram_limit : fl.lt (fl.literal 95 100) (fl.literal 98 100) ≡ true
  pub used-IsShare : (fr sz : ℕ) → fr ≤ sz → 0 < sz → IsShare fl (used_share fl (pos fr) (pos sz))
  pub sub-IsShare :
      (x y : fl.Float) → IsShare fl x → IsShare fl y → fl.lt x y ≡ true → IsShare fl (fl.sub y x)
  pub truncate-share :
      (x : fl.Float) (sz : ℕ)
      → IsShare fl x
      → sz < 2 ^ 53
      → (n : ℕ) × (fl.truncate (fl.mul x (fl.of_int (pos sz))) ≡ pos n) × (n ≤ sz)
  pub fmin-choice : (x y : fl.Float) → (fl.fmin x y ≡ x) ⊎ (fl.fmin x y ≡ y)

-- The FINDs of the loop: the clearing one with count 0, the switch with MAX_N_SWITCH, and those for at
-- most MAX_N_FIND pages.
pub data MemcheckFind : ℤ → ℤ → Type 0 where
  clears : MemcheckFind (pos 0) nvram_clear
  switches : MemcheckFind (pos max_n_switch) switch_mode
  fills : (c : ℕ) → c ≤ max_n_find → MemcheckFind (pos c) nvram_intensive_mode
  demotes : (c : ℕ) → c ≤ max_n_find → MemcheckFind (pos c) dram_mode
  promotes : (c : ℕ) → c ≤ max_n_find → MemcheckFind (pos c) nvram_mode

-- A size whose pages an `int` counts.
abbrev pub IsSize : ℕ → ℕ → Type 0
IsSize page_size sz = (sz < 2 ^ 53) × (sz < 2 ^ 31 * page_size)

-- A measurement: shares, and sizes.
pub record Measured (fl : Floats) (page_size : ℕ) (u : Usage fl.Float) : Type 0 where
  pub dram : IsShare fl u.dram_usage
  pub nvram : IsShare fl u.nvram_usage
  pub dram_bytes : (a : ℕ) × (u.dram_sz ≡ pos a) × IsSize page_size a
  pub nvram_bytes : (a : ℕ) × (u.nvram_sz ≡ pos a) × IsSize page_size a

-- Each node has a size whose pages an `int` counts, and at most so much of it is free.
abbrev pub Sized : (fl : Floats) → ℕ → (sys : Sys fl) → sys.World → Type 0
Sized fl page_size sys w =
    (node : ℕ)
    → (sz : ℕ) × (fr : ℕ) × (sys.numa_node_size64 w node ≡ (pos sz, pos fr))
      × (fr ≤ sz)
      × (0 < sz)
      × IsSize page_size sz

module _ (fl : Floats) (laws : FloatLaws fl) (page_size : ℕ) (paged : 0 < page_size) where
  -- A share of a size is a count of pages that is not negative, and at most MAX_N_FIND.
  pages_of-count :
      (x : fl.Float) (n sz : ℕ)
      → fl.truncate x ≡ pos n
      → n ≤ sz
      → IsSize page_size sz
      → (c : ℕ) × (pages_of fl page_size x ≡ pos c) × (c ≤ max_n_find)
  unfolding pages_of to_int int_of_long
  pages_of-count x n sz e le size =
      let few : n / page_size < 2 ^ 31 = (div-lt_iff_lt-mul paged).1 (omega (arith, size)) in
      let same : int_of_long (quotient (pos n) page_size) ≡ pos (n / page_size) =
        ground (arith, few) in
      (
        min max_n_find (n / page_size),
        rw e (ap (int_min (pos max_n_find)) same ∙ int_min-pos max_n_find (n / page_size)),
        omega arith,
      )

  pub share-pages :
      (x : fl.Float) (sz : ℕ)
      → IsShare fl x
      → IsSize page_size sz
      → (c : ℕ) × (pages_of fl page_size (fl.mul x (fl.of_int (pos sz))) ≡ pos c) × (c ≤ max_n_find)
  share-pages x sz share size =
      let (n, e, le) = laws.truncate-share x sz share size.0 in
      pages_of-count (fl.mul x (fl.of_int (pos sz))) n sz e le size

  pub least-pages :
      (x y : fl.Float) (a b : ℕ)
      → IsShare fl x
      → IsShare fl y
      → IsSize page_size a
      → IsSize page_size b
      → let bytes = fl.fmin (fl.mul x (fl.of_int (pos a))) (fl.mul y (fl.of_int (pos b))) in
        (c : ℕ) × (pages_of fl page_size bytes ≡ pos c) × (c ≤ max_n_find)
  least-pages x y a b sx sy la lb =
      elim (laws.fmin-choice (fl.mul x (fl.of_int (pos a))) (fl.mul y (fl.of_int (pos b)))) [
        | inl e ↦ rw e (share-pages x a sx la)
        | inr e ↦ rw e (share-pages y b sy lb)
      ]

  module _ (sys : Sys fl) where
    abbrev IsTier : ℤ × ℤ → Type 0
    IsTier r =
        (sz : ℕ) × (fr : ℕ) × (r ≡ (pos fr, pos sz)) × (fr ≤ sz) × (0 < sz) × IsSize page_size sz

    -- Each tier has one node.
    node-IsTier :
        (w : sys.World) (node : ℕ)
        → Sized fl page_size sys w
        → IsTier (free_space_nodes fl sys w (node ∷ []) (pos 0, pos 0))
    unfolding free_space_nodes free_space_node
    node-IsTier w node sized =
        let (sz, fr, e, le, some_bytes, size) = sized node in
        (sz, fr, rw e (ground arith), le, some_bytes, size)

    tot_bytes-IsTier :
        (w : sys.World) (mode : ℤ)
        → Sized fl page_size sys w
        → IsTier (free_space_tot_bytes fl sys w mode)
    unfolding free_space_tot_bytes
    tot_bytes-IsTier w mode sized = elim (Bool-cases (mode ==ℤ dram_mode)) [
      | inl e ↦ rw e (node-IsTier w 0 sized)
      | inr ne ↦ rw ne (node-IsTier w 2 sized)
    ]

    tot_per-IsShare :
        (w : sys.World) (mode : ℤ)
        → Sized fl page_size sys w
        → let r = free_space_tot_per fl sys w mode in
          IsShare fl r.0 × ((a : ℕ) × (r.1 ≡ pos a) × IsSize page_size a)
    unfolding free_space_tot_per
    tot_per-IsShare w mode sized =
        let (sz, fr, e, le, some_bytes, size) = tot_bytes-IsTier w mode sized in
        rw e (laws.used-IsShare fr sz le some_bytes, (sz, refl, size))

    pub measure-Measured :
        (w : sys.World) → Sized fl page_size sys w → Measured fl page_size (measure fl sys w)
    unfolding measure
    measure-Measured w sized =
        let d = tot_per-IsShare w dram_mode sized in
        let n = tot_per-IsShare w nvram_mode sized in
        record { dram = d.0; nvram = n.0; dram_bytes = d.1; nvram_bytes = n.1 }
