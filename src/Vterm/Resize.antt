-- ===== src/Vterm/Resize.antt =====
-- src/lib/vterm.cpp: the constructor, `reset` and `resize`.
pub mod Size
use fbterm.Prelude.{
  ℕ, ◌+◌, ◌-◌, ◌*◌, ◌/◌, pos, true, false, ◌&&◌, ◌||◌, none, ltb, leb, ◌==◌, if◌then◌else◌, u16,
  sub16, Store,
}
use fbterm.Prelude.Int.{s16}
use fbterm.Prelude.Arrays.{fill}
use fbterm.Prelude.Loops.{for_range}
use fbterm.Vterm.Types.{
  Cell, ModeType, mode_changed, history_changed, es_normal, lat1_map, graf_map, new_mode_flag,
}
use fbterm.Vterm.State.{Term, Screen, emit, with_screen, total_history_lines}
use fbterm.Vterm.Area.{clear}
use fbterm.Vterm.Scroll.{scroll_region}
use fbterm.Vterm.Cursor.{move, clear_tabs}

-- What `reset` assigns, before it clears the screen.
unfoldable pub reset_fields : Term → Term
reset_fields t =
    let d = t.settings.default_char_attr in
    let s = t.screen in
    record t {
      parser = record (t.parser) { utf8 = true; utf8_count = 0; esc_state = es_normal };
      charsets = record (t.charsets) {
        g0_is_active = true;
        g0_charset = lat1_map;
        g1_charset = graf_map;
        charset = lat1_map;
      };
      flags = new_mode_flag;
      pen = record {
        char_attr = d;
        s_char_attr = d;
        cur_fcolor = d.fcolor;
        cur_bcolor = d.bcolor;
        cur_underline_color = none;
        cur_halfbright_color = none;
      };
      screen = record s {
        pending_scroll = pos 0;
        scroll_top = 0;
        scroll_bot = if s.height == 0 then 0 else s.height - 1;
        cursor_x = 0;
        cursor_y = 0;
        s_cursor_x = 0;
        s_cursor_y = 0;
      };
    }

-- `VTerm::reset`
unfoldable pub reset : Term → Term
reset t =
    let u = reset_fields t in
    let s = u.screen in
    let cleared = clear 0 0 (sub16 s.width 1) (sub16 s.height 1) (with_screen u (clear_tabs s)) in
    emit (mode_changed ModeType.all_modes) (if s.allocated then cleared else u)

-- `memcpy(new + dst, old + src, n)` between two arrays.
abbrev pub copy_from : Store Cell → ℕ → ℕ → ℕ → Store Cell → Store Cell
copy_from old dst src n new j =
    if leb dst j then if ltb j (dst + n) then old (src + (j - dst)) else new j else new j

-- A line of the history in the larger arrays, with the columns behind it blank.
unfoldable pub copy_history_line : Store Cell → Cell → ℕ → ℕ → ℕ → Store Cell → Store Cell
copy_history_line old blank max_width new_max_width i new =
    fill (new_max_width - max_width) (i * new_max_width + max_width) blank
      (copy_from old (i * new_max_width) (i * max_width) max_width new)

-- A line of the screen in the larger arrays.
unfoldable pub copy_screen_line : Store Cell → ℕ → ℕ → ℕ → ℕ → Store Cell → Store Cell
copy_screen_line old history_lines max_width new_max_width i new =
    copy_from old ((history_lines + i) * new_max_width) ((history_lines + i) * max_width) max_width
      new

-- The first part of `resize`: `tab_stops` for more columns.
unfoldable pub grow_tabs : ℕ → Screen → Screen
grow_tabs new_max_width s =
    let kept = 8 * (s.max_width / 8 + 1) in
    if ltb s.max_width new_max_width
    then record s {
      tab_stops = λ (i : ℕ). s.allocated && (if ltb i kept then s.tab_stops i else false);
    }
    else s

-- The second part: the arrays by rows, for more rows. `w` is the new width.
unfoldable pub grow_rows : ℕ → ℕ → ℕ → Screen → Screen
grow_rows history_lines new_max_height w s =
    let orig = λ (i : ℕ). s.allocated && ltb i s.height in
    if ltb s.max_height new_max_height
    then record s {
      linenumbers = λ (i : ℕ). if orig i then s.linenumbers i else u16 (history_lines + i);
      dirty_startx = λ (i : ℕ). if orig i then s.dirty_startx i else w;
      dirty_endx = λ (i : ℕ). if orig i then s.dirty_endx i else 0;
    }
    else s

-- The third part: `text` and `attrs`. `fresh` is what the new arrays hold before they are written.
unfoldable pub grow_cells : Store Cell → ℕ → ℕ → Term → Term
grow_cells fresh new_max_width new_max_height t =
    let s = t.screen in
    let lines = t.settings.history_lines in
    let blank : Cell = record { code = b' '; attr = t.settings.default_char_attr } in
    let with_history =
      for_range (total_history_lines t) 0
        (copy_history_line s.cells blank s.max_width new_max_width) fresh in
    let copied =
      for_range s.max_height 0 (copy_screen_line s.cells lines s.max_width new_max_width)
        with_history in
    if ltb s.max_width new_max_width || ltb s.max_height new_max_height
    then with_screen t (record s {
      allocated = true;
      cells = if s.allocated then copied else fresh;
      max_width = new_max_width;
      max_height = new_max_height;
    })
    else t

-- The part of `resize` that brings the cursor into the new size.
unfoldable pub keep_cursor : ℕ → ℕ → Term → Term
keep_cursor w h t =
    let s = t.screen in
    let u =
      if ltb h s.height && leb h s.cursor_y
      then move s.cursor_x (sub16 h 1)
          (scroll_region 0 (sub16 s.height 1) (s16 (s.cursor_y + 1 - h)) t)
      else t in
    if leb w u.screen.cursor_x then move (sub16 w 1) u.screen.cursor_y u else u

-- The last part of `resize`: the new size, and the new columns and rows blank.
unfoldable pub set_size : ℕ → ℕ → Term → Term
set_size w h t =
    let s = t.screen in
    let minw = if ltb s.width w then s.width else w in
    let minh = if ltb s.height h then s.height else h in
    let sized = with_screen t (record s {
      width = w;
      height = h;
      scroll_bot = h - 1;
      scroll_top = if leb h s.scroll_top then 0 else s.scroll_top;
    }) in
    let told =
      if h == s.height
      then sized
      else emit (history_changed t.history.visual_start_line (total_history_lines t)) sized in
    let columns = if ltb minw w then clear minw 0 (w - 1) (h - 1) told else told in
    if ltb minh h then clear 0 minh minw (h - 1) columns else columns

-- `VTerm::resize`
unfoldable pub resize : Store Cell → ℕ → ℕ → Term → Term
resize fresh w h t =
    let s = t.screen in
    let new_max_width = if ltb s.max_width w then w else s.max_width in
    let new_max_height = if ltb s.max_height h then h else s.max_height in
    let grown = grow_cells fresh new_max_width new_max_height (
      with_screen t
        (grow_rows t.settings.history_lines new_max_height w (grow_tabs new_max_width s))) in
    if w == 0 || h == 0 || w == s.width && h == s.height
    then t
    else set_size w h (keep_cursor w h grown)
