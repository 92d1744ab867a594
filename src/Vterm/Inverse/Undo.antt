-- ===== src/Vterm/Inverse/Undo.antt =====
-- `inverse` undoes itself.
use fbterm.Prelude.{
  ℕ, ◌+◌, ◌-◌, ◌*◌, ◌≡◌, refl, sym, ◌∙◌, ap, fun_ext, Bool, true, false, ◌&&◌, ◌||◌, ltb, ◌==◌,
  if◌then◌else◌, u16, sub16, Store, arith, inl, inr, Bool-cases,
}
use fbterm.Prelude.Loops.{for_range-keeps, for_range, for_range-commutes, for_range-undo}
use fbterm.Vterm.Types.{Cell, is_left, is_right}
use fbterm.Vterm.State.{Term, total_history_lines, with_screen, get_line, cell_at}
use fbterm.Vterm.Inverse.{flip, flip_columns, flip_row, flip_rows, widen_start, widen_end, inverse}

flip-flip : (p : ℕ) (cells : Store Cell) → flip p (flip p cells) ≡ cells
unfolding flip
flip-flip p cells =
    fun_ext λ j. elim (Bool-cases (j == p)) [ inl y ↦ ground arith | inr n ↦ ground arith ]

flip_comm : (p q : ℕ) (cells : Store Cell) → flip p (flip q cells) ≡ flip q (flip p cells)
unfolding flip
flip_comm p q cells = fun_ext λ j. elim (Bool-cases (j == p)) [
  | inl y ↦ elim (Bool-cases (p == q)) [ inl e ↦ ground arith | inr n ↦ ground arith ]
  | inr n ↦ elim (Bool-cases (j == q)) [ inl e ↦ ground arith | inr n ↦ ground arith ]
]

flip_columns-flip :
    (yp start end p : ℕ) (cells : Store Cell)
    → flip_columns yp start end (flip p cells) ≡ flip p (flip_columns yp start end cells)
unfolding flip_columns
flip_columns-flip yp start end p cells =
    for_range-commutes (λ x c. flip (yp + x) c) (flip p) (end + 1 - start) start cells
      (λ x. flip_comm (yp + x) p)

flip_columns_comm :
    (yp start end yp' start' end' : ℕ) (cells : Store Cell)
    → flip_columns yp start end (flip_columns yp' start' end' cells)
      ≡ flip_columns yp' start' end' (flip_columns yp start end cells)
flip_columns_comm yp start end yp' start' end' cells =
    unfold flip_columns in
    for_range-commutes (λ x c. flip (yp + x) c) (flip_columns yp' start' end') (end + 1 - start)
      start cells (λ x c. sym (flip_columns-flip yp' start' end' (yp + x) c))

flip_columns-undo :
    (yp start end : ℕ) (cells : Store Cell)
    → flip_columns yp start end (flip_columns yp start end cells) ≡ cells
unfolding flip_columns
flip_columns-undo yp start end cells =
    for_range-undo (λ x c. flip (yp + x) c) (end + 1 - start) start cells
      (λ j k. flip_comm (yp + j) (yp + k)) (λ k. flip-flip (yp + k))

rows-undo :
    (t : Term) (sx sy ex ey n i : ℕ) (cells : Store Cell)
    → for_range n i (flip_row t sx sy ex ey) (for_range n i (flip_row t sx sy ex ey) cells) ≡ cells
unfolding flip_row
rows-undo t sx sy ex ey n i cells =
    for_range-undo (flip_row t sx sy ex ey) n i cells (λ j k. flip_columns_comm _ _ _ _ _ _)
      (λ k. flip_columns-undo _ _ _)

-- The same types in all cells.
abbrev SameTypes : Store Cell → Store Cell → Type 0
SameTypes a b = (j : ℕ) → (b j).attr.type ≡ (a j).attr.type

flip-SameTypes : (a : Store Cell) (p : ℕ) (b : Store Cell) → SameTypes a b → SameTypes a (flip p b)
unfolding flip
flip-SameTypes a p b h j = elim (Bool-cases (j == p)) [
  | inl y ↦ ground (arith, h p, h j)
  | inr n ↦ ground (arith, h j)
]

flip_row-SameTypes :
    (t : Term) (sx sy ex ey : ℕ) (a : Store Cell) (y : ℕ) (b : Store Cell)
    → SameTypes a b
    → SameTypes a (flip_row t sx sy ex ey y b)
unfolding flip_row flip_columns
flip_row-SameTypes t sx sy ex ey a y b h =
    for_range-keeps (SameTypes a) (λ x c. flip (get_line t y * t.screen.max_width + x) c) _ _ b
      (λ x. flip-SameTypes a (get_line t y * t.screen.max_width + x)) h

flip_rows-SameTypes :
    (sx sy ex ey : ℕ) (t : Term) → SameTypes t.screen.cells (flip_rows sx sy ex ey t).screen.cells
unfolding flip_rows
flip_rows-SameTypes sx sy ex ey t =
    for_range-keeps (SameTypes t.screen.cells) (flip_row t sx sy ex ey) (ey + 1 - sy) sy
      t.screen.cells (flip_row-SameTypes t sx sy ex ey t.screen.cells) (λ j. refl)

flip_rows-undo : (sx sy ex ey : ℕ) (t : Term) → flip_rows sx sy ex ey (flip_rows sx sy ex ey t) ≡ t
unfolding flip_rows flip_row get_line total_history_lines
flip_rows-undo sx sy ex ey t =
    ap (λ c. with_screen t (record (t.screen) { cells = c }))
      (rows-undo t sx sy ex ey (ey + 1 - sy) sy t.screen.cells)

-- The kind of a cell that is shown is what it was.
cell_at-flip_rows :
    (sx sy ex ey : ℕ) (t : Term) (x y : ℕ)
    → (cell_at (flip_rows sx sy ex ey t) x y).attr.type ≡ (cell_at t x y).attr.type
unfolding cell_at flip_rows get_line total_history_lines
cell_at-flip_rows sx sy ex ey t x y =
    flip_rows-SameTypes sx sy ex ey t (get_line t y * t.screen.max_width + x)

-- The two cases of `inverse`.
abbrev pub stops : ℕ → ℕ → ℕ → ℕ → Term → Bool
stops sx sy ex ey t = ltb ey sy || (sy == ey && ltb (widen_end t ex ey) (widen_start t sx sy))

pub inverse-stops :
    (sx sy ex ey : ℕ) (t : Term) → stops sx sy ex ey t ≡ true → inverse sx sy ex ey t ≡ t
unfolding inverse
inverse-stops sx sy ex ey t h = ground arith

pub inverse-runs :
    (sx sy ex ey : ℕ) (t : Term)
    → stops sx sy ex ey t ≡ false
    → inverse sx sy ex ey t ≡ flip_rows (widen_start t sx sy) sy (widen_end t ex ey) ey t
unfolding inverse
inverse-runs sx sy ex ey t h = ground arith

-- Inverting does not move the ends.
widen_start-flip_rows :
    (a b c d : ℕ) (t : Term) (x y : ℕ) → widen_start (flip_rows a b c d t) x y ≡ widen_start t x y
unfolding widen_start
widen_start-flip_rows a b c d t x y =
    ap (λ k. if is_right k then sub16 x 1 else x) (cell_at-flip_rows a b c d t x y)

widen_end-flip_rows :
    (a b c d : ℕ) (t : Term) (x y : ℕ) → widen_end (flip_rows a b c d t) x y ≡ widen_end t x y
unfolding widen_end
widen_end-flip_rows a b c d t x y =
    ap (λ k. if is_left k then u16 (x + 1) else x) (cell_at-flip_rows a b c d t x y)

-- Text that is inverted twice from the same place to the same place is as it was, in the cells and
-- in all else, also where an end lies within a double width character.
pub inverse-inverse : (sx sy ex ey : ℕ) (t : Term) → inverse sx sy ex ey (inverse sx sy ex ey t) ≡ t
inverse-inverse sx sy ex ey t = elim (Bool-cases (stops sx sy ex ey t)) [
  | inl h ↦ let e = inverse-stops sx sy ex ey t h in ap (inverse sx sy ex ey) e ∙ e
  | inr h ↦
      let a = widen_start t sx sy in
      let b = widen_end t ex ey in
      let u = flip_rows a sy b ey t in
      let ea = widen_start-flip_rows a sy b ey t sx sy in
      let eb = widen_end-flip_rows a sy b ey t ex ey in
      let k : stops sx sy ex ey u ≡ false = ground (arith, ea, eb, h) in
      ap (inverse sx sy ex ey) (inverse-runs sx sy ex ey t h)
      ∙ inverse-runs sx sy ex ey u k
      ∙ ap (λ z. flip_rows z sy (widen_end u ex ey) ey u) ea
      ∙ ap (λ z. flip_rows a sy z ey u) eb
      ∙ flip_rows-undo a sy b ey t
]
