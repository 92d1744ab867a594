-- ===== src/ImProxy/Rectangles.antt =====
-- src/improxy.cpp: `intersectRectangles`.
pub mod Points
use fbterm.Prelude.{ℕ, Bool, ◌+◌, ◌%◌, ◌&&◌, ◌||◌, leb, ◌==◌, if◌then◌else◌, u32}
use fbterm.Screen.Rotate.{Rect}

pub data IntersectState : Type 0 where
  intersect inside outside : IntersectState

-- The rectangles have no common point.
abbrev pub apart : Rect → Rect → Bool
apart r1 r2 =
    leb (u32 (r2.x + r2.w)) r1.x
    || leb (u32 (r2.y + r2.h)) r1.y
    || leb (u32 (r1.x + r1.w)) r2.x
    || leb (u32 (r1.y + r1.h)) r2.y

-- The first rectangle is within the second.
abbrev pub contained : Rect → Rect → Bool
contained r1 r2 =
    leb r2.x r1.x
    && leb r2.y r1.y
    && leb (u32 (r1.x + r1.w)) (u32 (r2.x + r2.w))
    && leb (u32 (r1.y + r1.h)) (u32 (r2.y + r2.h))

-- `intersectRectangles`
unfoldable pub intersect_rectangles : Rect → Rect → IntersectState
intersect_rectangles r1 r2 =
    if r1.w == 0 || r1.h == 0
    then inside
    else if r2.w == 0 || r2.h == 0
    then outside
    else if apart r1 r2
    then outside
    else if contained r1 r2
    then inside
    else intersect
