-- ===== src/Vterm/Edit.antt =====
-- src/lib/vterm_action.cpp: editing and erasing, and the margins.
use fbterm.Prelude.{
  ℕ, ◌+◌, ◌-◌, ◌*◌, pos_part, neg_part, ◌&&◌, ◌||◌, ltb, leb, ◌==◌, if◌then◌else◌, u16, sub16,
}
use fbterm.Prelude.Arrays.{fill}
use fbterm.Prelude.Int.{s16}
use fbterm.Prelude.Loops.{for_range}
use fbterm.Vterm.Types.{Cell}
use fbterm.Vterm.State.{Term, Screen, with_screen, erased, normal_char_attr}
use fbterm.Vterm.Area.{move_cursor, changed_line, shift_text, clear}
use fbterm.Vterm.Draw.{update}
use fbterm.Vterm.Scroll.{scroll_region}
use fbterm.Vterm.Cursor.{count_param}

-- `VTerm::insert_char`
unfoldable pub insert_char : Term → Term
insert_char t =
    let s = t.screen in
    let n = count_param 0 t in
    if leb (sub16 s.width s.cursor_x) n
    then clear s.cursor_x s.cursor_y (sub16 s.width 1) s.cursor_y t
    else with_screen t (shift_text (erased t) s.cursor_y s.cursor_x (sub16 s.width 1) (s16 n) s)

-- `VTerm::delete_char`
unfoldable pub delete_char : Term → Term
delete_char t =
    let s = t.screen in
    let n = count_param 0 t in
    if leb (sub16 s.width s.cursor_x) n
    then clear s.cursor_x s.cursor_y (sub16 s.width 1) s.cursor_y t
    else with_screen t
        (shift_text (erased t) s.cursor_y s.cursor_x (sub16 s.width 1) (s16 (sub16 0 n)) s)

-- `VTerm::erase_char`
unfoldable pub erase_char : Term → Term
erase_char t =
    let s = t.screen in
    let mx = sub16 s.width s.cursor_x in
    let n = if ltb mx (count_param 0 t) then mx else count_param 0 t in
    clear s.cursor_x s.cursor_y (sub16 (s.cursor_x + n) 1) s.cursor_y t

-- `VTerm::insert_line`
unfoldable pub insert_line : Term → Term
insert_line t =
    let s = t.screen in
    let n = count_param 0 t in
    if leb (sub16 (s.scroll_bot + 1) s.cursor_y) n
    then clear 0 s.cursor_y (sub16 s.width 1) s.scroll_bot t
    else scroll_region s.cursor_y s.scroll_bot (s16 (sub16 0 n)) t

-- `VTerm::delete_line`
unfoldable pub delete_line : Term → Term
delete_line t =
    let s = t.screen in
    let n = count_param 0 t in
    if leb (sub16 (s.scroll_bot + 1) s.cursor_y) n
    then clear 0 s.cursor_y (sub16 s.width 1) s.scroll_bot t
    else scroll_region s.cursor_y s.scroll_bot (s16 n) t

-- `VTerm::erase_line`
unfoldable pub erase_line : Term → Term
erase_line t =
    let s = t.screen in
    let p = t.parser.param 0 in
    if p == 0
    then clear s.cursor_x s.cursor_y (sub16 s.width 1) s.cursor_y t
    else if p == 1
    then clear 0 s.cursor_y s.cursor_x s.cursor_y t
    else if p == 2
    then clear 0 s.cursor_y (sub16 s.width 1) s.cursor_y t
    else t

-- `VTerm::erase_display`
unfoldable pub erase_display : Term → Term
erase_display t =
    let s = t.screen in
    let p = t.parser.param 0 in
    let right = sub16 s.width 1 in
    let bottom = sub16 s.height 1 in
    let to_end = clear s.cursor_x s.cursor_y right s.cursor_y t in
    let from_start = clear 0 s.cursor_y s.cursor_x s.cursor_y t in
    if p == 0
    then if ltb s.cursor_y bottom
      then clear 0 (u16 (s.cursor_y + 1)) right bottom to_end
      else to_end
    else if p == 1
    then if ltb 0 s.cursor_y then clear 0 0 right (sub16 s.cursor_y 1) from_start else from_start
    else if p == 2
    then clear 0 0 right bottom t
    else t

-- One round of the outer loop of `screen_align`.
unfoldable pub align_row : Cell → ℕ → Screen → Screen
align_row letter y s =
    let u = changed_line y 0 (sub16 s.width 1) s in
    record u { cells = fill s.width (s.linenumbers y * s.max_width) letter u.cells }

-- `VTerm::screen_align`
unfoldable pub screen_align : Term → Term
screen_align t =
    let letter : Cell = record { code = b'E'; attr = normal_char_attr t.pen } in
    with_screen t (for_range t.screen.height 0 (align_row letter) t.screen)

-- `if (pending_scroll) update();`
unfoldable pub update_pending : Term → Term
update_pending t =
    let p = t.screen.pending_scroll in if pos_part p == 0 && neg_part p == 0 then t else update t

-- The end of `set_margins`: the cursor moves into the region.
unfoldable pub enter_margins : Screen → Screen
enter_margins s =
    let u = if ltb s.cursor_y s.scroll_top then move_cursor s.cursor_x s.scroll_top s else s in
    if ltb u.scroll_bot u.cursor_y then move_cursor u.cursor_x u.scroll_bot u else u

-- `VTerm::set_margins`
unfoldable pub set_margins : Term → Term
set_margins t =
    let b = t.parser.param 1 in
    let bot = if ltb b 1 || ltb t.screen.height b then t.screen.height else b in
    let u = update_pending t in
    with_screen u (
      enter_margins
        (record (u.screen) { scroll_top = count_param 0 t - 1; scroll_bot = sub16 bot 1 }))
