-- ===== src/Width/Columns.antt =====
-- The columns that a character takes.
use fbterm.Prelude.{
  ℕ, ◌≤◌, ◌<◌, ◌≡◌, ◌⊎◌, inl, inr, [], ◌∷◌, Bool-cases, ℤ, refl, ◌∙◌, pos, Bool, true, false, ltb,
  leb, ◌==◌, ◌||◌, ◌&&◌, within, get_or, List, if◌then◌else◌, arith,
}
use fbterm.Width.Tables.{Interval, combining, ambiguous}
use fbterm.Width.Search.{bisearch, none_interval}
use fbterm.Width.Search.Lookup.{
  covers, bisearch-eq-covers, combining-IsOrdered, ambiguous-IsOrdered,
}
use fbterm.Width.{mk_wcwidth, mk_wcwidth_cjk, char_width}

below_first :
    (table : List Interval) (c : ℕ)
    → ltb c (get_or table 0 none_interval).first ≡ true
    → bisearch c table ≡ false
unfolding bisearch
below_first table c h = ground arith

if_no {ℓ} : {A : Type ℓ} {b : Bool} (x y : A) → b ≡ false → (if b then x else y) ≡ y
if_no {b = true} x y h = absurd (ground arith)
if_no {b = false} x y h = refl

and_no : {a : Bool} (b : Bool) → a ≡ false → (a && b) ≡ false
and_no {a = true} b h = absurd (ground arith)
and_no {a = false} b h = refl

mk_wcwidth-ascii : (c : ℕ) → 32 ≤ c → c < 127 → mk_wcwidth c ≡ pos 1
unfolding mk_wcwidth
mk_wcwidth-ascii c a b =
    let nonzero : (c == 0) ≡ false = ground arith in
    let printed : (ltb c 32 || within 0x7f 0x9f c) ≡ false = ground arith in
    let narrow : leb 0x1100 c ≡ false = ground arith in
    if_no _ _ nonzero
    ∙ if_no _ _ printed
    ∙ if_no _ _ (below_first combining c (ground arith))
    ∙ if_no _ _ (and_no _ narrow)

-- A printable character of ASCII takes one column, whether ambiguous characters are wide or not.
pub char_width-ascii : (wide : Bool) (c : ℕ) → 32 ≤ c → c < 127 → char_width wide c ≡ pos 1
unfolding char_width mk_wcwidth_cjk
char_width-ascii false c a b = mk_wcwidth-ascii c a b
char_width-ascii true c a b =
    if_no _ _ (below_first ambiguous c (ground arith)) ∙ mk_wcwidth-ascii c a b

-- Whether an interval has no character in common with those of a table.
unfoldable pub clear_of : Interval → List Interval → Bool
clear_of i [] = true
clear_of i (j ∷ table) = (ltb i.last j.first || ltb j.last i.first) && clear_of i table

unfoldable pub all_clear : List Interval → List Interval → Bool
unfolding clear_of
all_clear [] table = true
all_clear (i ∷ is) table = clear_of i table && all_clear is table

clear_of-covers :
    (i : Interval) (table : List Interval) (c : ℕ)
    → clear_of i table ≡ true
    → within i.first i.last c ≡ true
    → covers table c ≡ false
unfolding clear_of covers
clear_of-covers i [] c h k = refl
clear_of-covers i (j ∷ table) c h k = ground (arith, clear_of-covers i table c)

all_clear-covers :
    (is table : List Interval) (c : ℕ)
    → all_clear is table ≡ true
    → covers is c ≡ true
    → covers table c ≡ false
unfolding all_clear covers
all_clear-covers [] table c h k = absurd (ground arith)
all_clear-covers (i ∷ is) table c h k =
    ground (arith, clear_of-covers i table c, all_clear-covers is table c)

-- No character is listed in both tables.
combining-ambiguous : (c : ℕ) → covers combining c ≡ true → covers ambiguous c ≡ false
unfolding all_clear
combining-ambiguous c h = all_clear-covers combining ambiguous c refl h

if_yes {ℓ} : {A : Type ℓ} {b : Bool} (x y : A) → b ≡ true → (if b then x else y) ≡ x
if_yes {b = true} x y h = refl
if_yes {b = false} x y h = absurd (ground arith)

-- What is left when no table and no control character decides.
one_or_two :
    (zero_char control listed wide : Bool) (x y : ℤ)
    → zero_char ≡ false
    → control ≡ false
    → listed ≡ false
    → let w =
        if zero_char
        then x
        else if control
        then y
        else if listed
        then x
        else if wide
        then pos 2
        else pos 1 in
      (w ≡ pos 1) ⊎ (w ≡ pos 2)
one_or_two zero_char control listed wide x y a b c = ground (arith, a, b, c)

-- From 160 on, the table of combining characters decides first.
mk_wcwidth-from_160 :
    (c : ℕ)
    → 160 ≤ c
    → (bisearch c combining ≡ true → mk_wcwidth c ≡ pos 0)
      × (bisearch c combining ≡ false → (mk_wcwidth c ≡ pos 1) ⊎ (mk_wcwidth c ≡ pos 2))
unfolding mk_wcwidth
mk_wcwidth-from_160 c a =
    let nonzero : (c == 0) ≡ false = ground arith in
    let printed : (ltb c 32 || within 0x7f 0x9f c) ≡ false = ground arith in
    (
      λ h. if_no _ _ nonzero ∙ if_no _ _ printed ∙ if_yes _ _ h,
      λ h. one_or_two _ _ _ _ _ _ nonzero printed h,
    )

-- From 160 on, where no control characters are: a character that an interval of `combining` holds takes
-- no column under either setting; one that `ambiguous` holds takes two where ambiguous characters are
-- wide; and any other takes as many there as where they are narrow, one or two.
pub char_width-listed :
    (wide : Bool) (c : ℕ)
    → 160 ≤ c
    → (covers combining c ≡ true → char_width wide c ≡ pos 0)
      × (covers ambiguous c ≡ true → char_width true c ≡ pos 2)
      × (covers ambiguous c ≡ false → char_width true c ≡ char_width false c)
      × (covers combining c ≡ false → (char_width wide c ≡ pos 1) ⊎ (char_width wide c ≡ pos 2))
unfolding char_width mk_wcwidth_cjk
char_width-listed wide c a =
    let k = bisearch-eq-covers combining c combining-IsOrdered (omega arith) in
    let m = bisearch-eq-covers ambiguous c ambiguous-IsOrdered (omega arith) in
    let narrow = mk_wcwidth-from_160 c a in
    (
      λ h. ground (arith, k, m, combining-ambiguous c h, narrow.0 (k ∙ h)),
      λ h. ground (arith, m),
      λ h. ground (arith, m),
      λ h. elim (Bool-cases wide) [
        | inl y ↦ elim (Bool-cases (bisearch c ambiguous)) [
          | inl listed ↦ inr (ground (arith, listed, y))
          | inr other ↦ ground (arith, other, y, narrow.1 (k ∙ h))
        ]
        | inr n ↦ ground (arith, n, narrow.1 (k ∙ h))
      ],
    )
