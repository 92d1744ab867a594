-- ===== src/Vterm/Scroll.antt =====
-- src/lib/vterm.cpp: scrolling a region, and the history of lines that have left the screen.
pub mod Rows
pub mod Lines
use fbterm.Prelude.{
  ℕ, ◌+◌, ◌-◌, ◌*◌, ℤ, pos, pos_part, neg_part, Bool, true, not, ◌&&◌, ◌||◌, ltb_ℤ, ◌+ℤ◌, ◌-ℤ◌, ltb,
  leb, ◌==◌, if◌then◌else◌, u32, sub16, put, memmove,
}
use fbterm.Prelude.Arrays.{fill}
use fbterm.Prelude.Loops.{for_range}
use fbterm.Vterm.Types.{Cell, ModeType, move_chars, history_changed, mode_changed}
use fbterm.Vterm.State.{Term, Screen, emit, with_screen, with_history, total_history_lines, erased}
use fbterm.Vterm.Area.{clear_area}
use fbterm.Vterm.Draw.{expose, show_cursor}

-- One round of the loop of `history_scroll`: the screen's line `i` goes to the history.
unfoldable pub save_line : ℕ → Term → Term
save_line i t =
    let s = t.screen in
    let h = t.history in
    let yp = s.linenumbers i * s.max_width in
    let yp_history = h.history_save_line * s.max_width in
    let blank : Cell = record { code = b' '; attr = t.settings.default_char_attr } in
    let copied = memmove yp_history yp s.width s.cells in
    let next = h.history_save_line + 1 in
    record t {
      screen = record s {
        cells = fill (s.max_width - s.width) (yp_history + s.width) blank copied;
      };
      history = record h {
        history_save_line = if next == t.settings.history_lines then 0 else next;
        history_full = if next == t.settings.history_lines then true else h.history_full;
      };
    }

-- `VTerm::history_scroll`
unfoldable pub history_scroll : ℕ → Term → Term
history_scroll num t =
    let u = for_range num 0 save_line t in
    let total = total_history_lines u in
    if t.settings.history_lines == 0
    then t
    else emit (history_changed total total)
        (with_history u (record (u.history) { visual_start_line = total }))

-- `takey`: the row whose line comes to row `y`.
unfoldable pub take_row : ℕ → ℕ → ℤ → ℕ → ℤ
take_row start_y end_y num y =
    let takey = pos y +ℤ num in
    let below =
      if ltb_ℤ takey (pos start_y) then pos (end_y + 1) -ℤ (pos start_y -ℤ takey) else takey in
    if ltb_ℤ (pos end_y) below then pos start_y -ℤ pos 1 +ℤ (below -ℤ pos end_y) else below

-- `clr`: whether row `y` shows nothing of the region afterwards.
unfoldable pub is_cleared : ℕ → ℕ → ℤ → ℕ → Bool
is_cleared start_y end_y num y =
    ltb_ℤ (pos y +ℤ num) (pos start_y) || ltb_ℤ (pos end_y) (pos y +ℤ num)

-- One round of the loop of `scroll_region`; `old` is the screen before the loop.
unfoldable pub scroll_row : Cell → Screen → Bool → ℕ → ℕ → ℤ → ℕ → Screen → Screen
scroll_row blank old fast_scroll start_y end_y num y s =
    let takey = pos_part (take_row start_y end_y num y) in
    let clr = is_cleared start_y end_y num y in
    let moved = record s {
      linenumbers = put s.linenumbers y (old.linenumbers takey);
      dirty_startx =
          put s.dirty_startx y (if not fast_scroll || clr then 0 else old.dirty_startx takey);
      dirty_endx =
          put s.dirty_endx y
            (if not fast_scroll || clr then sub16 s.width 1 else old.dirty_endx takey);
    } in
    if clr then clear_area blank 0 y (sub16 s.width 1) y moved else moved

-- The renumbering of `scroll_region`, on a count that is within the region's size.
unfoldable pub renumber : Cell → ℕ → ℕ → ℤ → Screen → Screen
renumber blank start_y end_y num s =
    let fast_scroll = start_y == s.scroll_top && end_y == s.scroll_bot in
    let mx = pos (end_y + 1 - start_y) in
    if ltb_ℤ num mx && ltb_ℤ (pos 0 -ℤ num) mx
    then for_range (end_y + 1 - start_y) start_y (scroll_row blank s fast_scroll start_y end_y num)
        s
    else s

-- The count of `scroll_region`, cut to the region's size.
unfoldable pub clamp_count : ℤ → ℕ → ℤ
clamp_count num mx =
    let n = if ltb_ℤ (pos mx) num then pos mx else num in
    if ltb_ℤ (pos mx) (pos 0 -ℤ n) then pos 0 -ℤ pos mx else n

-- The lines that a scroll from the first row pushes out go to the history.
unfoldable pub save_scrolled : ℕ → ℤ → Term → Term
save_scrolled start_y n t =
    if start_y == 0 && ltb_ℤ (pos 0) n then history_scroll (pos_part n) t else t

-- A scroll of the whole scroll region is left for `update` to draw.
unfoldable pub add_pending : ℕ → ℕ → ℤ → Screen → Screen
add_pending start_y end_y n s =
    if start_y == s.scroll_top && end_y == s.scroll_bot
    then record s { pending_scroll = s.pending_scroll +ℤ n }
    else s

-- `VTerm::scroll_region`
unfoldable pub scroll_region : ℕ → ℕ → ℤ → Term → Term
scroll_region start_y end_y num t =
    let ey = if leb t.screen.height end_y then sub16 t.screen.height 1 else end_y in
    let n = clamp_count num (ey + 1 - start_y) in
    let saved = save_scrolled start_y n t in
    if pos_part num == 0 && neg_part num == 0 || ltb ey start_y
    then t
    else with_screen saved
        (renumber (erased t) start_y ey n (add_pending start_y ey n saved.screen))

-- The drawing of `historyDisplay`, after the first shown line went from `bak_line` to its new value.
unfoldable pub show_history : ℕ → Term → Term
show_history bak_line t =
    let s = t.screen in
    let line = t.history.visual_start_line in
    let scroll_lines = if ltb bak_line line then line - bak_line else bak_line - line in
    let sy = if ltb bak_line line then scroll_lines else 0 in
    let dy = if ltb bak_line line then 0 else scroll_lines in
    let updatey = if ltb bak_line line then s.height - scroll_lines else 0 in
    let asked = emit (move_chars 0 sy 0 dy s.width (s.height - scroll_lines)) t in
    show_cursor (
      if ltb scroll_lines s.height
      then if t.settings.moves asked.trace
        then expose 0 updatey s.width scroll_lines asked
        else expose 0 0 s.width s.height asked
      else expose 0 0 s.width s.height t)

-- `VTerm::historyDisplay`. The count is an s32; what is assigned to the u32 wraps.
unfoldable pub history_display : Bool → ℤ → Term → Term
history_display absolute num t =
    let bak_line = t.history.visual_start_line in
    let wanted =
      if absolute
      then u32 (pos_part num + 4294967296 - neg_part num)
      else if ltb_ℤ (pos bak_line) (pos 0 -ℤ num)
      then 0
      else pos_part (pos bak_line +ℤ num) in
    let line = if ltb (total_history_lines t) wanted then total_history_lines t else wanted in
    let same =
      if absolute
      then pos_part num == bak_line && neg_part num == 0
      else pos_part num == 0 && neg_part num == 0 in
    if t.settings.history_lines == 0 || same || line == bak_line
    then t
    else show_history bak_line (
        emit (mode_changed ModeType.cursor_visible)
          (with_history t (record (t.history) { visual_start_line = line })))
