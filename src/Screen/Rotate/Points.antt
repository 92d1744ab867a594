-- ===== src/Screen/Rotate/Points.antt =====
-- Rotation of rectangles is that of their points.
use fbterm.Prelude.{ℕ, ◌+◌, ◌≤◌, ◌<◌, ◌↔◌, arith}
use fbterm.Screen.Rotate.{
  RotateType, rotate0, rotate90, rotate180, rotate270, Rect, rotate_rect, rotate_point,
}

-- The point is one of the rectangle's.
unfoldable pub Holds : Rect → ℕ → ℕ → Type 0
Holds r x y = (r.x ≤ x) × (x < r.x + r.w) × (r.y ≤ y) × (y < r.y + r.h)

-- The rectangle is on a screen of this size.
pub record IsOn (width height : ℕ) (r : Rect) : Type 0 where
  pub right : r.x + r.w ≤ width
  pub bottom : r.y + r.h ≤ height

-- The width and the height in the memory of the frame buffer.
abbrev pub raw_width : RotateType → ℕ → ℕ → ℕ
raw_width rotate90 width height = height
raw_width rotate270 width height = height
raw_width _ width height = width

abbrev pub raw_height : RotateType → ℕ → ℕ → ℕ
raw_height rotate90 width height = width
raw_height rotate270 width height = width
raw_height _ width height = height

-- A rectangle on the screen is rotated to one in the frame buffer.
pub rotate_rect-IsOn :
    (type : RotateType) (width height : ℕ) (r : Rect)
    → width < 4294967296
    → height < 4294967296
    → IsOn width height r
    → IsOn
        (raw_width type width height)
        (raw_height type width height)
        (rotate_rect type width height r)
unfolding rotate_rect
rotate_rect-IsOn rotate0 width height r a b k = k
rotate_rect-IsOn rotate90 width height r a b k = record {
  right = omega (arith, k.bottom);
  bottom = omega (arith, k.right);
}
rotate_rect-IsOn rotate180 width height r a b k = record {
  right = omega (arith, k.right);
  bottom = omega (arith, k.bottom);
}
rotate_rect-IsOn rotate270 width height r a b k = record {
  right = omega (arith, k.bottom);
  bottom = omega (arith, k.right);
}

-- For a rectangle on the screen, a point of the screen is one of the rectangle's exactly if the rotated
-- point is one of the rotated rectangle's.
pub rotate_rect-rotate_point :
    (type : RotateType) (width height : ℕ) (r : Rect) (x y : ℕ)
    → width < 4294967296
    → height < 4294967296
    → IsOn width height r
    → x < width
    → y < height
    → Holds r x y
      ↔ Holds
          (rotate_rect type width height r)
          (rotate_point type width height x y).0
          (rotate_point type width height x y).1
unfolding rotate_rect rotate_point Holds
rotate_rect-rotate_point rotate0 width height r x y a b k c d = (λ h. h, λ h. h)
rotate_rect-rotate_point rotate90 width height r x y a b k c d = (
  λ (e, f, g, h). (omega (arith, k.bottom), omega (arith, k.bottom), omega arith, omega arith),
  λ (e, f, g, h). (omega arith, omega arith, omega (arith, k.bottom), omega (arith, k.bottom)),
)
rotate_rect-rotate_point rotate180 width height r x y a b k c d = (
  λ (e, f, g, h). (
    omega (arith, k.right),
    omega (arith, k.right),
    omega (arith, k.bottom),
    omega (arith, k.bottom),
  ),
  λ (e, f, g, h). (
    omega (arith, k.right),
    omega (arith, k.right),
    omega (arith, k.bottom),
    omega (arith, k.bottom),
  ),
)
rotate_rect-rotate_point rotate270 width height r x y a b k c d = (
  λ (e, f, g, h). (omega arith, omega arith, omega (arith, k.right), omega (arith, k.right)),
  λ (e, f, g, h). (omega (arith, k.right), omega (arith, k.right), omega arith, omega arith),
)
