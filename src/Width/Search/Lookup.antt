-- ===== src/Width/Search/Lookup.antt =====
-- The binary search of src/lib/wcwidth.cpp against a search through the whole table.
use fbterm.Prelude.{
  ℕ, zero, suc, ◌+◌, ◌-◌, ◌/◌, ◌≤◌, ◌<◌, ◌≡◌, refl, inl, inr, Bool, true, false, ◌||◌, ◌&&◌, List,
  [], ◌∷◌, ltb, leb, ◌==◌, Bool-cases, arith, length, get_or, within,
}
use fbterm.Width.Tables.{Interval, combining, ambiguous}
use fbterm.Width.Search.{none_interval, bisearch, bisearch_loop}

-- Whether an interval of the table holds the character.
unfoldable pub covers : List Interval → ℕ → Bool
covers [] ucs = false
covers (i ∷ table) ucs = within i.first i.last ucs || covers table ucs

abbrev pub entry : List Interval → ℕ → Interval
entry table k = get_or table k none_interval

-- The intervals stand in increasing order, and none is empty.
pub record IsOrdered (table : List Interval) : Type 0 where
  pub proper : (k : ℕ) → k < length table → (entry table k).first ≤ (entry table k).last
  pub apart : (j k : ℕ) → j < k → k < length table → (entry table j).last < (entry table k).first

-- An interval at a place from `bot` to below `top` holds the character.
abbrev Found : List Interval → ℕ → ℕ → ℕ → Type 0
Found table ucs bot top =
    (j : ℕ) × (bot ≤ j) × (j < top) × ((entry table j).first ≤ ucs) × (ucs ≤ (entry table j).last)

bisearch_loop-Found :
    (table : List Interval) (ucs fuel bot top : ℕ)
    → bisearch_loop fuel ucs table bot top ≡ true
    → Found table ucs bot top
unfolding bisearch_loop
bisearch_loop-Found table ucs zero bot top h = absurd (cc)
bisearch_loop-Found table ucs (suc fuel) bot top h =
    let mid = (bot + (top - 1)) / 2 in
    elim (Bool-cases (leb top bot)) [
      | inl done ↦ absurd (ground arith)
      | inr more ↦ elim (Bool-cases (ltb (entry table mid).last ucs)) [
        | inl above ↦
            let (j, x, y, z, w) = bisearch_loop-Found table ucs fuel (mid + 1) top (ground arith) in
            (j, omega arith, y, z, w)
        | inr not_above ↦ elim (Bool-cases (ltb ucs (entry table mid).first)) [
          | inl below ↦
              let (j, x, y, z, w) = bisearch_loop-Found table ucs fuel bot mid (ground arith) in
              (j, x, ground arith, z, w)
          | inr here ↦ (mid, ground arith, ground arith, ground arith, ground arith)
        ]
      ]
    ]

module _ (table : List Interval) (ordered : IsOrdered table) (ucs : ℕ) where
  last_mono : (j k : ℕ) → j ≤ k → k < length table → (entry table j).last ≤ (entry table k).last
  last_mono j k a b = elim (Bool-cases (j == k)) [
    | inl same ↦ let e : j ≡ k = ground arith in rw e (omega arith)
    | inr less ↦ ground (arith, ordered.apart j k, ordered.proper k)
  ]

  first_mono : (j k : ℕ) → j ≤ k → k < length table → (entry table j).first ≤ (entry table k).first
  first_mono j k a b = elim (Bool-cases (j == k)) [
    | inl same ↦ let e : j ≡ k = ground arith in rw e (omega arith)
    | inr less ↦ ground (arith, ordered.apart j k, ordered.proper j)
  ]

  Found-bisearch_loop :
      (fuel bot top j : ℕ)
      → top ≤ length table
      → top - bot < fuel
      → bot ≤ j
      → j < top
      → (entry table j).first ≤ ucs
      → ucs ≤ (entry table j).last
      → bisearch_loop fuel ucs table bot top ≡ true
  unfolding bisearch_loop
  Found-bisearch_loop zero bot top j b f x y lo hi = absurd (omega arith)
  Found-bisearch_loop (suc fuel) bot top j b f x y lo hi =
      let mid = (bot + (top - 1)) / 2 in
      ground (
        arith,
        last_mono j mid,
        first_mono mid j,
        Found-bisearch_loop fuel (mid + 1) top j,
        Found-bisearch_loop fuel bot mid j,
      )

covers-Found :
    (table : List Interval) (ucs : ℕ) → covers table ucs ≡ true → Found table ucs 0 (length table)
unfolding covers
covers-Found [] ucs h = absurd (ground arith)
covers-Found (i ∷ table) ucs h = elim (Bool-cases (within i.first i.last ucs)) [
  | inl here ↦ (0, ground arith, ground arith, ground arith, ground arith)
  | inr later ↦
      let (j, x, y, z, w) = covers-Found table ucs (ground arith) in
      (j + 1, ground arith, ground arith, ground arith, ground arith)
]

Found-covers :
    (table : List Interval) (ucs j : ℕ)
    → j < length table
    → (entry table j).first ≤ ucs
    → ucs ≤ (entry table j).last
    → covers table ucs ≡ true
unfolding covers
Found-covers [] ucs j h lo hi = absurd (omega arith)
Found-covers (i ∷ table) ucs j h lo hi = ground (arith, Found-covers table ucs (j - 1))

Bool-eq : (a b : Bool) → (a ≡ true → b ≡ true) → (b ≡ true → a ≡ true) → a ≡ b
Bool-eq a b f g = ground arith

-- On an ordered table that is not empty, the binary search of `wcwidth.cpp` has the same answer as
-- the test of every interval in turn, for every character.
pub bisearch-eq-covers :
    (table : List Interval) (ucs : ℕ)
    → IsOrdered table
    → 0 < length table
    → bisearch ucs table ≡ covers table ucs
unfolding bisearch
bisearch-eq-covers table ucs ordered some_entry =
    let n = length table in
    Bool-eq _ _
      (λ h.
        let (j, x, y, z, w) = bisearch_loop-Found table ucs (n + 1) 0 n (ground arith) in
        Found-covers table ucs j y z w)
      (λ h.
        let (j, x, y, z, w) = covers-Found table ucs h in
        ground (
          arith,
          last_mono table ordered ucs j (n - 1),
          first_mono table ordered ucs 0 j,
          Found-bisearch_loop table ordered ucs (n + 1) 0 n j,
        ))

-- A test for order.
behind : Interval → List Interval → Bool
behind i [] = true
behind i (j ∷ table) = ltb i.last j.first && behind i table

unfoldable pub in_order : List Interval → Bool
unfolding behind
in_order [] = true
in_order (i ∷ table) = leb i.first i.last && behind i table && in_order table

behind-lt :
    (i : Interval) (table : List Interval) (k : ℕ)
    → behind i table ≡ true
    → k < length table
    → i.last < (entry table k).first
unfolding behind
behind-lt i [] k h b = absurd (omega arith)
behind-lt i (j ∷ table) k h b = ground (arith, behind-lt i table (k - 1))

in_order-proper :
    (table : List Interval) (k : ℕ)
    → in_order table ≡ true
    → k < length table
    → (entry table k).first ≤ (entry table k).last
unfolding in_order
in_order-proper [] k h b = absurd (omega arith)
in_order-proper (i ∷ table) k h b = ground (arith, in_order-proper table (k - 1))

in_order-apart :
    (table : List Interval) (j k : ℕ)
    → in_order table ≡ true
    → j < k
    → k < length table
    → (entry table j).last < (entry table k).first
unfolding in_order
in_order-apart [] j k h a b = absurd (omega arith)
in_order-apart (i ∷ table) j k h a b =
    ground (arith, behind-lt i table (k - 1), in_order-apart table (j - 1) (k - 1))

pub in_order-IsOrdered : (table : List Interval) → in_order table ≡ true → IsOrdered table
in_order-IsOrdered table h = record {
  proper = λ k b. in_order-proper table k h b;
  apart = λ j k a b. in_order-apart table j k h a b;
}

pub combining-IsOrdered : IsOrdered combining
unfolding in_order
combining-IsOrdered = in_order-IsOrdered combining refl

pub ambiguous-IsOrdered : IsOrdered ambiguous
unfolding in_order
ambiguous-IsOrdered = in_order-IsOrdered ambiguous refl
