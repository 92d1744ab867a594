-- ===== src/Vterm/Draw.antt =====
-- src/lib/vterm.cpp: the functions that draw, by calls of the virtual functions.
pub mod Rows
use fbterm.Prelude.{
  Option, none, some, ℕ, zero, suc, ◌+◌, ◌-◌, ◌*◌, pos, pos_part, neg_part, Bool, not, xor, ◌&&◌,
  ◌||◌, ltb_ℤ, sub_ℕ, ◌+ℤ◌, ◌-ℤ◌, List, [], ◌∷◌, ◌++◌, ltb, leb, ◌==◌, if◌then◌else◌, u16, sub16,
  length, put,
}
use fbterm.Prelude.Int.{to_u16}
use fbterm.Prelude.Loops.{for_range}
use fbterm.Vterm.Types.{
  CharAttr, Cell, ModeType, Event, draw_chars, move_chars, draw_cursor, is_right, is_left,
  is_single, differs,
}
use fbterm.Vterm.State.{Term, Screen, emit, with_screen, get_line, mode}

-- The local variables of the loop of `expose`: what waits to be drawn.
pub record Run : Type 0 where
  pub attr : CharAttr
  pub start : ℕ
  pub codes : List ℕ
  pub dws : List Bool

-- `attr.reverse ^= mode_flags.inverse_screen; drawChars(...)`
unfoldable pub draw_run : Bool → ℕ → ℕ → Run → Event
draw_run inverse_screen y cur r =
    draw_chars (record (r.attr) { reverse = xor r.attr.reverse inverse_screen }) r.start y
      (cur - r.start) (length r.codes) r.codes r.dws

-- One round of the loop of `expose` at the position `cur`: the drawing it makes, and what waits.
unfoldable pub expose_step : Bool → ℕ → ℕ → Cell → Run → List Event × Run
expose_step inverse_screen y cur c r =
    if is_right c.attr.type
    then ([], r)
    else if differs c.attr r.attr
    then (
      draw_run inverse_screen y cur r ∷ [],
      record {
        attr = c.attr;
        start = cur;
        codes = c.code ∷ [];
        dws = not (is_single c.attr.type) ∷ [];
      },
    )
    else (
      [],
      record r { codes = r.codes ++ c.code ∷ []; dws = r.dws ++ not (is_single c.attr.type) ∷ [] },
    )

-- The loop of `expose` from `cur` to `endx`, with the drawing behind it, on fuel. Its counter is a u16;
-- `none` stands for a run that has not ended.
unfoldable pub expose_loop : ℕ → Bool → ℕ → (ℕ → Cell) → ℕ → ℕ → Run → Option (List Event)
expose_loop zero inverse_screen y cell endx cur r = none
expose_loop (suc fuel) inverse_screen y cell endx cur r =
    let (drawn, r') = expose_step inverse_screen y cur (cell cur) r in
    let rest = expose_loop fuel inverse_screen y cell endx (u16 (cur + 1)) r' in
    if leb cur endx
    then elim rest [ none ↦ none | some es ↦ some (drawn ++ es) ]
    else some (draw_run inverse_screen y cur r ∷ [])

-- The same loop where it ends, over `n` positions from `cur`: `endx` is below 65535.
unfoldable pub expose_runs : Bool → ℕ → (ℕ → Cell) → ℕ → ℕ → Run → List Event
expose_runs inverse_screen y cell zero cur r = draw_run inverse_screen y cur r ∷ []
expose_runs inverse_screen y cell (suc n) cur r =
    let (drawn, r') = expose_step inverse_screen y cur (cell cur) r in
    drawn ++ expose_runs inverse_screen y cell n (cur + 1) r'

-- `startx`, `endx` and the cells of the row `y` of `expose`: the whole of a double width character is
-- drawn with either half.
abbrev pub row_cell : Term → ℕ → ℕ → Cell
row_cell t y cur = t.screen.cells (get_line t y * t.screen.max_width + cur)

abbrev pub row_start : Term → ℕ → ℕ → ℕ
row_start t x y = if is_right (row_cell t y x).attr.type then sub16 x 1 else x

abbrev pub row_end : Term → ℕ → ℕ → ℕ → ℕ
row_end t x w y =
    let endx = x + w - 1 in if is_left (row_cell t y endx).attr.type then endx + 1 else endx

abbrev pub row_run : Term → ℕ → ℕ → Run
row_run t x y = record {
  attr = (row_cell t y (row_start t x y)).attr;
  start = row_start t x y;
  codes = [];
  dws = [];
}

-- The row `y` of `expose`.
unfoldable pub expose_row : Term → ℕ → ℕ → ℕ → List Event
expose_row t x w y =
    expose_runs t.flags.inverse_screen y (row_cell t y) (row_end t x w y + 1 - row_start t x y)
      (row_start t x y) (row_run t x y)

-- Calls made in the order of the list.
unfoldable pub emit_all : List Event → Term → Term
emit_all [] t = t
emit_all (e ∷ es) t = emit_all es (emit e t)

-- `VTerm::expose`, which `requestUpdate` calls too.
unfoldable pub expose : ℕ → ℕ → ℕ → ℕ → Term → Term
expose x y w h t =
    let s = t.screen in
    let w' = if ltb s.width (x + w) then s.width - x else w in
    let h' = if ltb s.height (y + h) then s.height - y else h in
    if s.width == 0 || w == 0 || h == 0 || leb s.width x || leb s.height y
    then t
    else for_range h' y (λ row u. emit_all (expose_row t x w' row) u) t

-- `for (; h--; dy++) { if (dy >= height) break; ... }` of `update`.
unfoldable pub mark_rows : ℕ → ℕ → Screen → Screen
mark_rows zero dy s = s
mark_rows (suc h) dy s =
    let rest = mark_rows h (dy + 1) (record s {
      dirty_startx = put s.dirty_startx dy 0;
      dirty_endx = put s.dirty_endx dy (sub16 s.width 1);
    }) in
    if leb s.height dy then s else rest

-- The call of `moveChars` in `update`, and the rows that it leaves to be drawn.
unfoldable pub scroll_copy : ℕ → ℕ → ℕ → Term → Term
scroll_copy sy dy h t =
    let u = emit (move_chars 0 sy 0 dy t.screen.width h) t in
    if t.settings.moves u.trace then u else with_screen u (mark_rows h dy u.screen)

-- The scroll-copy of `update`, for a count that is within the scroll region's size.
unfoldable pub scroll_pending : Term → Term
scroll_pending t =
    let s = t.screen in
    let p = s.pending_scroll in
    let mx = sub_ℕ (s.scroll_bot + 1) s.scroll_top in
    if not (pos_part p == 0 && neg_part p == 0) && ltb_ℤ p mx && ltb_ℤ (pos 0 -ℤ p) mx
    then if ltb_ℤ p (pos 0)
      then scroll_copy s.scroll_top (u16 (s.scroll_top + neg_part p)) (to_u16 (mx +ℤ p)) t
      else scroll_copy (u16 (s.scroll_top + pos_part p)) s.scroll_top (to_u16 (mx -ℤ p)) t
    else t

-- The first part of `update`, with the pending count reset behind it.
unfoldable pub flush_scroll : Term → Term
flush_scroll t =
    let u = scroll_pending t in with_screen u (record (u.screen) { pending_scroll = pos 0 })

-- One round of the second loop of `update`.
unfoldable pub update_row : ℕ → Term → Term
update_row i t =
    let s = t.screen in
    if leb (s.dirty_startx i) (s.dirty_endx i)
    then with_screen (expose (s.dirty_startx i) i (s.dirty_endx i - s.dirty_startx i + 1) 1 t)
        (record s {
          dirty_startx = put s.dirty_startx i s.width;
          dirty_endx = put s.dirty_endx i 0;
        })
    else t

-- `VTerm::update`
unfoldable pub update : Term → Term
update t =
    if t.screen.width == 0 then t else for_range t.screen.height 0 update_row (flush_scroll t)

-- `VTerm::draw_cursor`
unfoldable pub show_cursor : Term → Term
show_cursor t =
    let s = t.screen in
    let c = s.cells (s.linenumbers s.cursor_y * s.max_width + s.cursor_x) in
    let attr = record (c.attr) { reverse = xor c.attr.reverse t.flags.inverse_screen } in
    if mode t ModeType.cursor_visible == 0
    then t
    else emit (draw_cursor attr s.cursor_x s.cursor_y c.code) t
