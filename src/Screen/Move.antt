-- ===== src/Screen/Move.antt =====
-- src/screen.cpp: `move`, which scrolls by the offset that the device shows its memory from, and
-- `eraseMargin` and `switchVc`.
pub mod Offset
use fbterm.Prelude.{
  ℕ, zero, suc, ◌+◌, ◌-◌, ◌*◌, ◌%◌, ℤ, pos, negsuc, pos_part, neg_part, sub_ℕ, ltb_ℤ, ◌+ℤ◌, ◌-ℤ◌,
  Bool, true, false, not, ◌&&◌, ◌||◌, List, [], ◌∷◌, ltb, leb, ◌==◌, if◌then◌else◌, u16, u32, sub16,
}
use fbterm.Screen.Rotate.{RotateType, rotate0, rotate90, rotate180, rotate270, Rect}
use fbterm.Screen.Fill.{
  Screen, ScrollType, redraw_all, y_pan, y_wrap, x_pan, is_redraw, is_y_wrap, Call, setup_offset,
  redraw, call, fill_rect,
}

-- `Screen::eraseMargin`
unfoldable pub erase_margin : Bool → ℕ → Screen → Screen
erase_margin top h s =
    let right_margin : Rect = record {
      x = s.font_w * s.cols;
      y = if top then 0 else s.font_h * (s.rows - h);
      w = s.width % s.font_w;
      h = s.font_h * h;
    } in
    let bottom_margin : Rect = record {
      x = 0;
      y = s.font_h * s.rows;
      w = s.width;
      h = s.height % s.font_h;
    } in
    let u = if s.width % s.font_w == 0 then s else fill_rect right_margin 0 s in
    if s.height % s.font_h == 0 then u else fill_rect bottom_margin 0 u

-- The content of the memory moves up as the offset grows.
abbrev pub grows_down : RotateType → Bool
grows_down rotate0 = true
grows_down rotate270 = true
grows_down _ = false

-- `mOffsetCur` after the step of `n` pixels, before the limits.
unfoldable pub stepped : ℤ → Screen → ℤ
stepped n s = if grows_down s.rotate_type then s.offset_cur +ℤ n else s.offset_cur -ℤ n

-- The limits of the offset: a panned one starts again at the other end, with all to be drawn again; a
-- wrapped one goes round.
unfoldable pub limited : ScrollType → ℕ → ℤ → ℤ × Bool
limited y_wrap max o =
    if ltb_ℤ o (pos 0)
    then (o +ℤ pos (max + 1), false)
    else if ltb_ℤ (pos max) o
    then (o -ℤ pos (max + 1), false)
    else (o, false)
limited _ max o =
    if ltb_ℤ o (pos 0)
    then (pos max, true)
    else if ltb_ℤ (pos max) o
    then (pos 0, true)
    else (o, false)

-- The calls of `redraw` for what is around the area from row `top` to row `bot`.
unfoldable pub redraw_around : ℕ → ℕ → ℕ → ℕ → Screen → Screen
redraw_around top bot left right s =
    let a = if top == 0 then s else call (redraw 0 0 s.cols top) s in
    let b = if ltb bot s.rows then call (redraw 0 bot s.cols (s.rows - bot)) a else a in
    let height = u16 (bot + 65535 - top) in
    let c = if ltb 0 left then call (redraw 0 top left height) b else b in
    if ltb right s.cols then call (redraw right top (s.cols - right) height) c else c

-- The margins to be erased after a move.
unfoldable pub erase_moved : Bool → ℕ → ℕ → Screen → Screen
erase_moved all srow drow s =
    if all
    then erase_margin true s.rows s
    else if ltb srow drow
    then erase_margin true (drow - srow) s
    else erase_margin false (srow - drow) s

-- `Screen::move` for a move that is worth it.
unfoldable pub move_offset : ℕ → ℕ → ℕ → ℕ → ℕ → ℕ → Screen → Bool × Screen
move_offset scol srow drow top bot right s =
    let o = stepped (sub_ℕ (s.font_h * srow) (s.font_h * drow)) s in
    let (offset, all) = limited s.scroll_type s.offset_max o in
    let u = call (setup_offset offset) (record s { offset_cur = offset }) in
    (not all, erase_moved all srow drow (redraw_around top bot scol right u))

-- `Screen::move`; the areas to compare are u32.
unfoldable pub move : ℕ → ℕ → ℕ → ℕ → ℕ → ℕ → Screen → Bool × Screen
move scol srow dcol drow w h s =
    let top = if ltb srow drow then srow else drow in
    let bot = u16 ((if ltb drow srow then srow else drow) + h) in
    let noaccel = u32 (w * (bot + 4294967295 - top)) in
    let accel = u32 (s.cols * s.rows + 18446744073709551616 - w * h) in
    if not s.scroll_enable || is_redraw s.scroll_type || not (scol == dcol)
    then (false, s)
    else if leb noaccel accel
    then (false, s)
    else move_offset scol srow drow top bot (u16 (scol + w)) s

-- `Screen::switchVc`; `has_palette` says that `mPalette` is not null. The palette is the device's.
unfoldable pub switch_vc : Bool → Bool → Screen → Screen
switch_vc has_palette enter s =
    let u = call (setup_offset (pos 0)) (record s { offset_cur = pos 0 }) in
    if enter && has_palette then erase_margin true s.rows u else u
