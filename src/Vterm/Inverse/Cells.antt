-- ===== src/Vterm/Inverse/Cells.antt =====
-- The cells that `inverse` inverts.
use fbterm.Prelude.{
  ℕ, zero, suc, ◌+◌, ◌-◌, ◌*◌, ◌≤◌, ◌<◌, ◌≡◌, ◌≢◌, ◌⊎◌, sym, ◌∙◌, ap, Bool, true, false, not, ◌&&◌,
  ◌||◌, ltb, leb, ◌==◌, if◌then◌else◌, sub16, Store, arith, inl, inr, Bool-cases,
}
use fbterm.Prelude.Loops.{for_range}
use fbterm.Vterm.Types.{Cell, is_left, is_right}
use fbterm.Vterm.Fits.{Fits}
use fbterm.Vterm.State.{Term, total_history_lines, get_line, cell_at}
use fbterm.Vterm.Inverse.{flip, flip_columns, flip_row, flip_rows, widen_start, widen_end, inverse}
use fbterm.Vterm.Inverse.Undo.{stops, inverse-stops, inverse-runs}

-- The cell in reverse.
abbrev pub inverted : Cell → Cell
inverted c = record c { attr = record (c.attr) { reverse = not c.attr.reverse } }

-- Whether the place `x` in row `y` is one of those from `sx` in row `sy` to `ex` in row `ey`, as text
-- is read.
abbrev pub is_between : ℕ → ℕ → ℕ → ℕ → ℕ → ℕ → Bool
is_between sx sy ex ey x y = (ltb sy y || y == sy && leb sx x) && (ltb y ey || y == ey && leb x ex)

columns-at :
    (n start yp j : ℕ) (cells : Store Cell)
    → for_range n start (λ x c. flip (yp + x) c) cells j
      ≡ (if leb (yp + start) j && ltb j (yp + start + n) then inverted (cells j) else cells j)
unfolding for_range flip
columns-at zero start yp j cells = ground arith
columns-at (suc n) start yp j cells =
    ground (arith, columns-at n (start + 1) yp j (flip (yp + start) cells))

mul_below : (a b m : ℕ) → a < b → a * m + m ≤ b * m
mul_below a zero m h = absurd (omega arith)
mul_below a (suc b) m h = elim (Bool-cases (a == b)) [
  | inl same ↦ let e : a ≡ b = ground arith in rw e (omega arith)
  | inr less ↦ let k = mul_below a b m (ground arith) in omega (arith, k)
]

test_shift :
    (yp from to to' x : ℕ)
    → to ≡ to'
    → (leb (yp + from) (yp + x) && ltb (yp + x) (yp + from + (to + 1 - from)))
      ≡ (leb from x && leb x to')
test_shift yp from to to' x e = ground (arith, e)

outside_row :
    (yp from to m j : ℕ)
    → from < m
    → to < m
    → (yp + m ≤ j) ⊎ (j < yp)
    → (leb (yp + from) j && ltb j (yp + from + (to + 1 - from))) ≡ false
outside_row yp from to m j a b h = ground (arith, a, b, h)

module _ (t : Term) (sx sy ex ey : ℕ) (start_in : sx < t.screen.width)
    (end_in : ex < t.screen.width) (width_in : t.screen.width ≤ t.screen.max_width)
    (max_width_u16 : t.screen.max_width < 65536)
    (apart : (a b : ℕ)
      → a < t.screen.height
      → b < t.screen.height
      → get_line t a ≡ get_line t b
      → a ≡ b)
    (x y : ℕ) (x_in : x < t.screen.width) (y_in : y < t.screen.height) where
  place : ℕ
  place = get_line t y * t.screen.max_width + x

  in_row : Bool
  in_row = leb (if y == sy then sx else 0) x && leb x (if y == ey then ex else t.screen.width - 1)

  flip_row-own :
      (cells : Store Cell)
      → flip_row t sx sy ex ey y cells place
        ≡ (if in_row then inverted (cells place) else cells place)
  unfolding flip_row flip_columns place in_row
  flip_row-own cells =
      let yp = get_line t y * t.screen.max_width in
      let from = if y == sy then sx else 0 in
      let to = if y == ey then ex else sub16 t.screen.width 1 in
      let same : to ≡ (if y == ey then ex else t.screen.width - 1) =
        ground (arith, width_in, max_width_u16, x_in) in
      let k = columns-at (to + 1 - from) from yp (yp + x) cells in
      k
      ∙ ap (λ b. if b then inverted (cells place) else cells place) (test_shift yp from to _ x same)

  flip_row-other :
      (k : ℕ) (cells : Store Cell)
      → k < t.screen.height
      → k ≢ y
      → flip_row t sx sy ex ey k cells place ≡ cells place
  unfolding flip_row flip_columns place
  flip_row-other k cells h n =
      let yp = get_line t k * t.screen.max_width in
      let from = if k == sy then sx else 0 in
      let to = if k == ey then ex else sub16 t.screen.width 1 in
      let inside : to < t.screen.max_width =
        ground (arith, width_in, max_width_u16, x_in, end_in) in
      let c = columns-at (to + 1 - from) from yp place cells in
      let from_in : from < t.screen.max_width = ground (arith, start_in, width_in, x_in) in
      let apart_rows : get_line t k ≢ get_line t y = λ e. n (apart k y h y_in e) in
      let away : (yp + t.screen.max_width ≤ place) ⊎ (place < yp) =
        elim (Bool-cases (ltb (get_line t k) (get_line t y))) [
          | inl less ↦
              let m = mul_below (get_line t k) (get_line t y) t.screen.max_width (ground arith) in
              inl (omega (arith, m))
          | inr more ↦
              let m =
                mul_below (get_line t y) (get_line t k) t.screen.max_width
                  (ground (arith, more, apart_rows)) in
              inr (omega (arith, m, x_in, width_in))
        ] in
      c
      ∙ ap (λ b. if b then inverted (cells place) else cells place)
          (outside_row yp from to t.screen.max_width place from_in inside away)

  -- The rows from `i` on.
  rows-at :
      (n i : ℕ) (cells : Store Cell)
      → i + n ≤ t.screen.height
      → for_range n i (flip_row t sx sy ex ey) cells place
        ≡ (if leb i y && ltb y (i + n) && in_row then inverted (cells place) else cells place)
  unfolding for_range
  rows-at zero i cells h = ground (arith)
  rows-at (suc n) i cells h =
      let next = rows-at n (i + 1) (flip_row t sx sy ex ey i cells) (omega arith) in
      elim (Bool-cases (i == y)) [
        | inl here ↦
            let e : i ≡ y = ground (arith, here) in
            let own = ap (λ k. flip_row t sx sy ex ey k cells place) e ∙ flip_row-own cells in
            ground (arith, next, own, e)
        | inr else_where ↦
            let other = flip_row-other i cells (omega arith) (ground (arith, else_where)) in
            ground (arith, next, other, else_where)
      ]

  shown-at :
      sy ≤ ey
      → ey < t.screen.height
      → cell_at (flip_rows sx sy ex ey t) x y ≡ (
          if leb sy y && ltb y (sy + (ey + 1 - sy)) && in_row
          then inverted (cell_at t x y)
          else cell_at t x y)
  unfolding cell_at flip_rows get_line total_history_lines place
  shown-at a b = rows-at (ey + 1 - sy) sy t.screen.cells (omega (arith, a, b))

-- A place, or where it holds a half of a double width character, that of its left half, and that of
-- its right half.
abbrev pub left_half : Term → ℕ → ℕ → ℕ
left_half t x y = if is_right (cell_at t x y).attr.type then x - 1 else x

abbrev pub right_half : Term → ℕ → ℕ → ℕ
right_half t x y = if is_left (cell_at t x y).attr.type then x + 1 else x

-- The ends are on the screen, with the other half of a character that they fall into, and no two rows
-- show the same line.
pub record IsStretch (t : Term) (sx sy ex ey : ℕ) : Type 0 where
  pub start_in : sx < t.screen.width
  pub start_whole : is_right (cell_at t sx sy).attr.type ≡ true → 0 < sx
  pub end_in : right_half t ex ey < t.screen.width
  pub row_in : ey < t.screen.height
  pub apart :
      (a b : ℕ) → a < t.screen.height → b < t.screen.height → get_line t a ≡ get_line t b → a ≡ b

widen_start-left_half :
    (t : Term) (x y : ℕ)
    → x < 65536
    → (is_right (cell_at t x y).attr.type ≡ true → 0 < x)
    → widen_start t x y ≡ left_half t x y
unfolding widen_start
widen_start-left_half t x y h w = elim (Bool-cases (is_right (cell_at t x y).attr.type)) [
  | inl half ↦ ground (arith, h, w half, half)
  | inr whole ↦ ground (arith, whole)
]

widen_end-right_half :
    (t : Term) (x y : ℕ) → right_half t x y < 65536 → widen_end t x y ≡ right_half t x y
unfolding widen_end
widen_end-right_half t x y h = elim (Bool-cases (is_left (cell_at t x y).attr.type)) [
  | inl half ↦ ground (arith, h, half)
  | inr whole ↦ ground (arith, whole)
]

-- Rows and columns, and the order in which text is read.
between-rows :
    (width sx sy ex ey x y : ℕ)
    → x < width
    → sy < ey + 1
    → (leb sy y
        && ltb y (sy + (ey + 1 - sy))
        && (leb (if y == sy then sx else 0) x && leb x (if y == ey then ex else width - 1)))
      ≡ is_between sx sy ex ey x y
between-rows width sx sy ex ey x y h k = ground (arith, h, k)

between-nothing :
    (sx sy ex ey x y : ℕ)
    → (ltb ey sy || (sy == ey && ltb ex sx)) ≡ true
    → is_between sx sy ex ey x y ≡ false
between-nothing sx sy ex ey x y h = ground (arith, h)

-- On a terminal whose geometry is in order, `inverse` inverts the cells that are shown from the start
-- to the end of a stretch of text on the screen, with both halves of the characters at its ends, and
-- no other cell of the screen.
pub inverse-inverts :
    (sx sy ex ey : ℕ) (t : Term) (x y : ℕ)
    → Fits t.screen
    → IsStretch t sx sy ex ey
    → x < t.screen.width
    → y < t.screen.height
    → cell_at (inverse sx sy ex ey t) x y ≡ (
        if is_between (left_half t sx sy) sy (right_half t ex ey) ey x y
        then inverted (cell_at t x y)
        else cell_at t x y)
unfolding in_row
inverse-inverts sx sy ex ey t x y f s x_in y_in =
    let a = left_half t sx sy in
    let b = right_half t ex ey in
    let ea : widen_start t sx sy ≡ a =
      widen_start-left_half t sx sy (omega (arith, s.start_in, f.width_in, f.max_width_u16))
        s.start_whole in
    let eb : widen_end t ex ey ≡ b =
      widen_end-right_half t ex ey (omega (arith, s.end_in, f.width_in, f.max_width_u16)) in
    let choose = λ (q : Bool). if q then inverted (cell_at t x y) else cell_at t x y in
    elim (Bool-cases (stops sx sy ex ey t)) [
      | inl h ↦
          let nothing =
            sym (
              ap (λ q. ltb ey sy || sy == ey && ltb q (widen_start t sx sy)) eb
              ∙ ap (λ q. ltb ey sy || sy == ey && ltb b q) ea)
            ∙ h in
          ap (λ u. cell_at u x y) (inverse-stops sx sy ex ey t h)
          ∙ sym (ap choose (between-nothing a sy b ey x y nothing))
      | inr h ↦
          let in_order : sy ≤ ey = ground (arith, h) in
          let a_in : a < t.screen.width = ground (arith, s.start_in) in
          ap (λ u. cell_at u x y)
            (inverse-runs sx sy ex ey t h
              ∙ ap (λ q. flip_rows q sy (widen_end t ex ey) ey t) ea
              ∙ ap (λ q. flip_rows a sy q ey t) eb)
          ∙ shown-at t a sy b ey a_in s.end_in f.width_in f.max_width_u16 s.apart x y x_in y_in
              in_order s.row_in
          ∙ ap choose (between-rows t.screen.width a sy b ey x y x_in (omega (arith, in_order)))
    ]
