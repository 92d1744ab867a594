-- ===== src/Screen/Rotate.antt =====
-- src/screen.cpp: `rotateRect` and `rotatePoint`, on a screen of `width` and `height` pixels as the user
-- sees it.
pub mod Points
use fbterm.Prelude.{ℕ, ◌+◌, ◌-◌, ◌%◌, Bool}

-- `RotateType`
pub data RotateType : Type 0 where
  rotate0 rotate90 rotate180 rotate270 : RotateType

pub record Rect : Type 0 where
  pub x : ℕ
  pub y : ℕ
  pub w : ℕ
  pub h : ℕ

-- `a - b` in 32 bits.
abbrev pub sub32 : ℕ → ℕ → ℕ
sub32 a b = (a + 4294967296 - b) % 4294967296

-- `Screen::rotateRect`
unfoldable pub rotate_rect : RotateType → ℕ → ℕ → Rect → Rect
rotate_rect rotate0 width height r = r
rotate_rect rotate90 width height r = record {
  x = sub32 (sub32 height r.y) r.h;
  y = r.x;
  w = r.h;
  h = r.w;
}
rotate_rect rotate180 width height r = record r {
  x = sub32 (sub32 width r.x) r.w;
  y = sub32 (sub32 height r.y) r.h;
}
rotate_rect rotate270 width height r = record {
  x = r.y;
  y = sub32 (sub32 width r.x) r.w;
  w = r.h;
  h = r.w;
}

-- `Screen::rotatePoint`
unfoldable pub rotate_point : RotateType → ℕ → ℕ → ℕ → ℕ → ℕ × ℕ
rotate_point rotate0 width height x y = (x, y)
rotate_point rotate90 width height x y = (sub32 (sub32 height y) 1, x)
rotate_point rotate180 width height x y = (sub32 (sub32 width x) 1, sub32 (sub32 height y) 1)
rotate_point rotate270 width height x y = (y, sub32 (sub32 width x) 1)
