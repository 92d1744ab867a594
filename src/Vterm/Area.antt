-- ===== src/Vterm/Area.antt =====
-- src/lib/vterm.cpp: the functions that write the text of one or several lines, and `move_cursor`.
use fbterm.Prelude.{
  ℕ, ◌+◌, ◌-◌, ◌*◌, ℤ, pos, negsuc, ◌||◌, ltb, leb, ◌==◌, if◌then◌else◌, sub16, put, memmove,
}
use fbterm.Prelude.Arrays.{fill}
use fbterm.Prelude.Loops.{for_range}
use fbterm.Vterm.Types.{Cell}
use fbterm.Vterm.State.{Term, Screen, with_screen, erased}

-- `VTerm::changed_line`
unfoldable pub changed_line : ℕ → ℕ → ℕ → Screen → Screen
changed_line y start_x end_x s =
    let sx = if leb s.width start_x then sub16 s.width 1 else start_x in
    let ex = if leb s.width end_x then sub16 s.width 1 else end_x in
    if leb s.height y then s else record s {
      dirty_startx = if ltb sx (s.dirty_startx y) then put s.dirty_startx y sx else s.dirty_startx;
      dirty_endx = if ltb (s.dirty_endx y) ex then put s.dirty_endx y ex else s.dirty_endx;
    }

-- `VTerm::move_cursor`
unfoldable pub move_cursor : ℕ → ℕ → Screen → Screen
move_cursor x y s = record s {
  cursor_x = if leb s.width x then sub16 s.width 1 else x;
  cursor_y = if leb s.height y then sub16 s.height 1 else y;
}

-- One round of the outer loop of `clear_area`.
unfoldable pub clear_row : Cell → ℕ → ℕ → ℕ → Screen → Screen
clear_row blank start_x end_x y s = changed_line y start_x end_x (record s {
  cells = fill (end_x + 1 - start_x) (s.linenumbers y * s.max_width + start_x) blank s.cells;
})

-- `VTerm::clear_area`, with `blank` the erased position.
unfoldable pub clear_area : Cell → ℕ → ℕ → ℕ → ℕ → Screen → Screen
clear_area blank start_x start_y end_x end_y s =
    let ex = if leb s.width end_x then sub16 s.width 1 else end_x in
    let ey = if leb s.height end_y then sub16 s.height 1 else end_y in
    if leb s.width start_x || leb s.height start_y || ltb ex start_x || ltb ey start_y
    then s
    else for_range (ey + 1 - start_y) start_y (clear_row blank start_x ex) s

-- `clear_area` as the actions call it.
abbrev pub clear : ℕ → ℕ → ℕ → ℕ → Term → Term
clear start_x start_y end_x end_y t =
    with_screen t (clear_area (erased t) start_x start_y end_x end_y t.screen)

-- `shift_text` for a count to the right: `num` positions open up at `start_x`.
unfoldable pub shift_right : Cell → ℕ → ℕ → ℕ → ℕ → Screen → Screen
shift_right blank y start_x end_x num s =
    let yp = s.linenumbers y * s.max_width in
    let mx = end_x - start_x + 1 in
    let n = if ltb mx num then mx else num in
    let moved =
      if ltb n mx then memmove (yp + start_x + n) (yp + start_x) (mx - n) s.cells else s.cells in
    record s { cells = fill n (yp + start_x) blank moved }

-- `shift_text` for a count to the left: `num` positions open up behind the text.
unfoldable pub shift_left : Cell → ℕ → ℕ → ℕ → ℕ → Screen → Screen
shift_left blank y start_x end_x num s =
    let yp = s.linenumbers y * s.max_width in
    let mx = end_x - start_x + 1 in
    let n = if ltb mx num then mx else num in
    let moved =
      if ltb n mx then memmove (yp + start_x) (yp + start_x + n) (mx - n) s.cells else s.cells in
    record s { cells = fill n (yp + (end_x + 1 - n)) blank moved }

-- `VTerm::shift_text`, called with `start_x <= end_x`.
unfoldable pub shift_text : Cell → ℕ → ℕ → ℕ → ℤ → Screen → Screen
shift_text blank y start_x end_x (pos n) s =
    if n == 0 then s else changed_line y start_x end_x (shift_right blank y start_x end_x n s)
shift_text blank y start_x end_x (negsuc n) s =
    changed_line y start_x end_x (shift_left blank y start_x end_x (n + 1) s)
