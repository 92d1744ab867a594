-- ===== src/Vterm/Inverse.antt =====
-- src/lib/vterm.cpp: `VTerm::inverse`, by which the selected text is shown.
pub mod Undo
pub mod Cells
use fbterm.Prelude.{
  ℕ, zero, suc, ◌+◌, ◌-◌, ◌*◌, ◌≤◌, ◌<◌, ◌≡◌, refl, sym, ◌∙◌, ap, fun_ext, Bool, true, false, not,
  ◌&&◌, ◌||◌, ltb, leb, ◌==◌, if◌then◌else◌, u16, sub16, Store, put, arith, inl, inr, Bool-cases,
}
use fbterm.Prelude.Loops.{
  for_range-keeps, for_range, for_range-commutes, for_range-undo, for_range_inv,
}
use fbterm.Vterm.Types.{CharType, CharAttr, Cell, is_left, is_right}
use fbterm.Vterm.State.{Term, total_history_lines, with_screen, get_line, cell_at}

-- `attrs[p].reverse ^= 1`
unfoldable pub flip : ℕ → Store Cell → Store Cell
flip p cells =
    put cells p
      (record (cells p) { attr = record ((cells p).attr) { reverse = not (cells p).attr.reverse } })

-- The loops below count without a wrap. Their counters are u16: a loop whose last column or row is 65535
-- does not end, and on the screen, of 65535 columns and rows at most, the last ones are 65534.
--
-- The inner loop: the columns from `start` to `end` of the line that begins at `yp`.
unfoldable pub flip_columns : ℕ → ℕ → ℕ → Store Cell → Store Cell
flip_columns yp start end cells = for_range (end + 1 - start) start (λ x c. flip (yp + x) c) cells

-- A round of the outer loop, in row `y`.
unfoldable pub flip_row : Term → ℕ → ℕ → ℕ → ℕ → ℕ → Store Cell → Store Cell
flip_row t sx sy ex ey y cells =
    flip_columns (get_line t y * t.screen.max_width) (if y == sy then sx else 0)
      (if y == ey then ex else sub16 t.screen.width 1) cells

-- The two ends are moved to take in both halves of a double width character.
unfoldable pub widen_start : Term → ℕ → ℕ → ℕ
widen_start t sx sy = if is_right (cell_at t sx sy).attr.type then sub16 sx 1 else sx

unfoldable pub widen_end : Term → ℕ → ℕ → ℕ
widen_end t ex ey = if is_left (cell_at t ex ey).attr.type then u16 (ex + 1) else ex

-- The outer loop.
unfoldable pub flip_rows : ℕ → ℕ → ℕ → ℕ → Term → Term
flip_rows sx sy ex ey t = with_screen t (record (t.screen) {
  cells = for_range (ey + 1 - sy) sy (flip_row t sx sy ex ey) t.screen.cells;
})

-- `VTerm::inverse`
unfoldable pub inverse : ℕ → ℕ → ℕ → ℕ → Term → Term
inverse sx sy ex ey t =
    let sx' = widen_start t sx sy in
    let ex' = widen_end t ex ey in
    if ltb ey sy then t else if sy == ey && ltb ex' sx' then t else flip_rows sx' sy ex' ey t
