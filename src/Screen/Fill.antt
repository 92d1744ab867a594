-- ===== src/Screen/Fill.antt =====
-- src/screen.cpp: the state of `Screen`, and `fillRect`.
pub mod Bounds
use fbterm.Prelude.{
  ℕ, zero, suc, ◌+◌, ◌-◌, ◌*◌, ◌%◌, ℤ, pos, negsuc, pos_part, neg_part, Bool, true, false, ◌&&◌,
  ◌||◌, List, [], ◌∷◌, ◌++◌, ltb, leb, ◌==◌, if◌then◌else◌, u32,
}
use fbterm.Screen.Rotate.{RotateType, Rect, rotate_rect}

-- `Screen::ScrollType`
pub data ScrollType : Type 0 where
  redraw_all y_pan y_wrap x_pan : ScrollType

abbrev pub is_x_pan : ScrollType → Bool
is_x_pan x_pan = true
is_x_pan _ = false

abbrev pub is_y_wrap : ScrollType → Bool
is_y_wrap y_wrap = true
is_y_wrap _ = false

abbrev pub is_redraw : ScrollType → Bool
is_redraw redraw_all = true
is_redraw _ = false

-- What the screen asks of the device and of the manager of the shells; `fill` sets `w` pixels of a row
-- of the frame buffer.
pub data Call : Type 0 where
  fill : (x y w color : ℕ) → Call
  setup_offset : ℤ → Call
  redraw : (x y w h : ℕ) → Call

-- `font_w` and `font_h` are `FW(1)` and `FH(1)`.
pub record Screen : Type 0 where
  pub width : ℕ
  pub height : ℕ
  pub cols : ℕ
  pub rows : ℕ
  pub font_w : ℕ
  pub font_h : ℕ
  pub rotate_type : RotateType
  pub scroll_type : ScrollType
  pub scroll_enable : Bool
  pub offset_max : ℕ
  pub offset_cur : ℤ
  -- newest first
  pub calls : List Call

abbrev pub call : Call → Screen → Screen
call c s = record s { calls = c ∷ s.calls }

-- The u32 that a u32 and an s32 add up to.
abbrev pub add_offset : ℕ → ℤ → ℕ
add_offset n z = u32 (n + pos_part z + 4294967296 - neg_part z)

-- `Screen::adjustOffset`
unfoldable pub adjust_offset : Screen → Rect → Rect
adjust_offset s r =
    if is_x_pan s.scroll_type
    then record r { x = add_offset r.x s.offset_cur }
    else record r { y = add_offset r.y s.offset_cur }

-- `if (mScrollType == YWrap && y > mOffsetMax) y -= mOffsetMax + 1;`
unfoldable pub wrap_row : Screen → ℕ → ℕ
wrap_row s y = if is_y_wrap s.scroll_type && ltb s.offset_max y then y - (s.offset_max + 1) else y

-- The loop of `fillRect`: `n` rows from `y` on.
unfoldable pub fill_rows : ℕ → ℕ → ℕ → ℕ → ℕ → Screen → Screen
fill_rows zero x y w color s = s
fill_rows (suc n) x y w color s =
    let at = wrap_row s y in fill_rows n x (u32 (at + 1)) w color (call (fill x at w color) s)

-- The part of the rectangle that is on the screen.
unfoldable pub clip : Screen → Rect → Rect
clip s r = record r {
  w = if ltb s.width (u32 (r.x + r.w)) then s.width - r.x else r.w;
  h = if ltb s.height (u32 (r.y + r.h)) then s.height - r.y else r.h;
}

-- `Screen::fillRect`
unfoldable pub fill_rect : Rect → ℕ → Screen → Screen
fill_rect r color s =
    let c = adjust_offset s (rotate_rect s.rotate_type s.width s.height (clip s r)) in
    if leb s.width r.x || leb s.height r.y || r.w == 0 || r.h == 0
    then s
    else fill_rows c.h c.x c.y c.w color s
