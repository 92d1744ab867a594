-- ===== src/Vterm/Cursor.antt =====
-- src/lib/vterm_action.cpp: control characters and cursor movement.
use fbterm.Prelude.{
  ℕ, zero, suc, ◌+◌, ◌-◌, ◌*◌, ◌/◌, pos, negsuc, Bool, true, false, ltb, leb, ◌==◌, if◌then◌else◌,
  u16, sub16, Store, put,
}
use fbterm.Prelude.Arrays.{fill}
use fbterm.Vterm.Types.{RequestType, request}
use fbterm.Vterm.State.{Term, Screen, emit, with_screen}
use fbterm.Vterm.Area.{move_cursor}
use fbterm.Vterm.Scroll.{scroll_region}

-- `move_cursor` as the actions call it.
abbrev pub move : ℕ → ℕ → Term → Term
move x y t = with_screen t (move_cursor x y t.screen)

-- `n = param[i]; if (n < 1) n = 1;`
abbrev pub count_param : ℕ → Term → ℕ
count_param i t = if ltb (t.parser.param i) 1 then 1 else t.parser.param i

-- `VTerm::cr`
unfoldable pub cr : Term → Term
cr t = move 0 t.screen.cursor_y t

-- `VTerm::lf`
unfoldable pub lf : Term → Term
lf t =
    let s = t.screen in
    let u =
      if ltb s.cursor_y s.scroll_bot
      then move s.cursor_x (u16 (s.cursor_y + 1)) t
      else scroll_region s.scroll_top s.scroll_bot (pos 1) t in
    if t.flags.crlf then cr u else u

-- `VTerm::bs`
unfoldable pub bs : Term → Term
bs t = let s = t.screen in if s.cursor_x == 0 then t else move (sub16 s.cursor_x 1) s.cursor_y t

-- `VTerm::bell`
unfoldable pub ring_bell : Term → Term
ring_bell t = emit (request RequestType.bell 0) t

-- The loop of `tab`: the first stop among the `n` columns from `i`, or 0.
unfoldable pub find_tab : Store Bool → ℕ → ℕ → ℕ
find_tab stops zero i = 0
find_tab stops (suc n) i = let rest = find_tab stops n (i + 1) in if stops i then i else rest

-- `VTerm::tab`
unfoldable pub tab : Term → Term
tab t =
    let s = t.screen in
    let stop = find_tab s.tab_stops (s.width - (s.cursor_x + 1)) (s.cursor_x + 1) in
    let x = if stop == 0 then u16 ((s.cursor_x + 8) / 8 * 8) else stop in
    if ltb x s.width then move x s.cursor_y t else move (sub16 s.width 1) s.cursor_y t

-- `VTerm::set_tab`
unfoldable pub set_tab : Term → Term
set_tab t =
    with_screen t (record (t.screen) { tab_stops = put t.screen.tab_stops t.screen.cursor_x true })

-- `memset(tab_stops, 0, max_width / 8 + 1)`
abbrev pub clear_tabs : Screen → Screen
clear_tabs s = record s { tab_stops = fill (8 * (s.max_width / 8 + 1)) 0 false s.tab_stops }

-- `VTerm::clear_tab`
unfoldable pub clear_tab : Term → Term
clear_tab t =
    if t.parser.param 0 == 3
    then with_screen t (clear_tabs t.screen)
    else if t.parser.param 0 == 0
    then with_screen t
        (record (t.screen) { tab_stops = put t.screen.tab_stops t.screen.cursor_x false })
    else t

-- `VTerm::save_cursor`
unfoldable pub save_cursor : Term → Term
save_cursor t = record t {
  charsets = record (t.charsets) {
    s_g0_charset = t.charsets.g0_charset;
    s_g1_charset = t.charsets.g1_charset;
    s_g0_is_active = t.charsets.g0_is_active;
  };
  screen = record (t.screen) { s_cursor_x = t.screen.cursor_x; s_cursor_y = t.screen.cursor_y };
  pen = record (t.pen) { s_char_attr = t.pen.char_attr };
}

-- `VTerm::restore_cursor`
unfoldable pub restore_cursor : Term → Term
restore_cursor t =
    let c = t.charsets in
    move t.screen.s_cursor_x t.screen.s_cursor_y (record t {
      charsets = record c {
        g0_charset = c.s_g0_charset;
        g1_charset = c.s_g1_charset;
        g0_is_active = c.s_g0_is_active;
        charset = if c.s_g0_is_active then c.s_g0_charset else c.s_g1_charset;
      };
      pen = record (t.pen) { char_attr = t.pen.s_char_attr };
    })

-- `VTerm::next_line`
unfoldable pub next_line : Term → Term
next_line t = cr (lf t)

-- `VTerm::index_down`
unfoldable pub index_down : Term → Term
index_down t = lf t

-- `VTerm::index_up`
unfoldable pub index_up : Term → Term
index_up t =
    let s = t.screen in
    if ltb s.scroll_top s.cursor_y
    then move s.cursor_x (sub16 s.cursor_y 1) t
    else scroll_region s.scroll_top s.scroll_bot (negsuc 0) t

-- `VTerm::cursor_left`
unfoldable pub cursor_left : Term → Term
cursor_left t =
    let n = count_param 0 t in
    let x = if ltb t.screen.cursor_x n then 0 else t.screen.cursor_x - n in
    move x t.screen.cursor_y t

-- `VTerm::cursor_right`. The sum is stored in a u16.
unfoldable pub cursor_right : Term → Term
cursor_right t =
    let x = u16 (t.screen.cursor_x + count_param 0 t) in
    move (if leb t.screen.width x then sub16 t.screen.width 1 else x) t.screen.cursor_y t

-- The row that `cursor_up` and `cursor_up_cr` go to.
abbrev pub row_above : Term → ℕ
row_above t =
    let n = count_param 0 t in if ltb t.screen.cursor_y n then 0 else t.screen.cursor_y - n

-- The row that `cursor_down` and `cursor_down_cr` go to.
abbrev pub row_below : Term → ℕ
row_below t =
    let y = u16 (t.screen.cursor_y + count_param 0 t) in
    if leb t.screen.height y then sub16 t.screen.height 1 else y

-- `VTerm::cursor_up`
unfoldable pub cursor_up : Term → Term
cursor_up t = move t.screen.cursor_x (row_above t) t

-- `VTerm::cursor_down`
unfoldable pub cursor_down : Term → Term
cursor_down t = move t.screen.cursor_x (row_below t) t

-- `VTerm::cursor_up_cr`
unfoldable pub cursor_up_cr : Term → Term
cursor_up_cr t = move 0 (row_above t) t

-- `VTerm::cursor_down_cr`
unfoldable pub cursor_down_cr : Term → Term
cursor_down_cr t = move 0 (row_below t) t

-- `VTerm::cursor_position`
unfoldable pub cursor_position : Term → Term
cursor_position t =
    let origin = if t.flags.cursor_relative then t.screen.scroll_top else 0 in
    move (count_param 1 t - 1) (u16 (count_param 0 t - 1 + origin)) t

-- `VTerm::cursor_position_col`
unfoldable pub cursor_position_col : Term → Term
cursor_position_col t = move (count_param 0 t - 1) t.screen.cursor_y t

-- `VTerm::cursor_position_row`
unfoldable pub cursor_position_row : Term → Term
cursor_position_row t = move t.screen.cursor_x (count_param 0 t - 1) t
