-- ===== src/Screen/Move/Offset.antt =====
-- The offset stays one that the device has.
use fbterm.Prelude.{
  ℕ, zero, suc, ◌+◌, ◌-◌, ◌*◌, ◌≤◌, ◌≡◌, refl, ℤ, pos_part, neg_part, sub_ℕ, ◌+ℤ◌, ◌-ℤ◌, Bool, true,
  false, not, ◌||◌, ltb, leb, ◌==◌, if◌then◌else◌, if_both, u16, u32, arith,
}
use fbterm.Screen.Rotate.{Rect, rotate_rect}
use fbterm.Screen.Fill.{
  Screen, ScrollType, redraw_all, y_pan, y_wrap, x_pan, is_redraw, is_y_wrap, setup_offset, call,
  fill_rect, fill_rows, clip, adjust_offset,
}
use fbterm.Screen.Move.{
  stepped, limited, redraw_around, erase_margin, erase_moved, move_offset, move,
}

-- The offset is between 0 and the largest one.
unfoldable pub InRange : ℕ → ℤ → Type 0
InRange max o = (neg_part o ≡ 0) × (pos_part o ≤ max)

-- A step of at most the memory's rows leaves the offset in range; where it does not wrap, any step does.
limited-InRange :
    (type : ScrollType) (max : ℕ) (o : ℤ)
    → (is_y_wrap type ≡ true → (neg_part o ≤ max + 1) × (pos_part o ≤ 2 * max + 1))
    → InRange max (limited type max o).0
unfolding limited InRange ◌+ℤ◌ ◌-ℤ◌
limited-InRange redraw_all max o a = ground arith
limited-InRange y_pan max o a = ground arith
limited-InRange y_wrap max o a = let (b, c) = a refl in ground (arith, b, c)
limited-InRange x_pan max o a = ground arith

stepped-bounds :
    (n : ℤ) (max : ℕ) (s : Screen)
    → InRange max s.offset_cur
    → pos_part n ≤ max + 1
    → neg_part n ≤ max + 1
    → (neg_part (stepped n s) ≤ max + 1) × (pos_part (stepped n s) ≤ 2 * max + 1)
unfolding stepped InRange ◌+ℤ◌ ◌-ℤ◌
stepped-bounds n max s (a, b) c d = ground (arith, a, b, c, d)

-- The offset and its limits.
record SameOffset (s u : Screen) : Type 0 where
  offset : u.offset_cur ≡ s.offset_cur
  limit : u.offset_max ≡ s.offset_max

fill_rows-SameOffset : (n x y w color : ℕ) (s : Screen) → SameOffset s (fill_rows n x y w color s)
unfolding fill_rows
fill_rows-SameOffset zero x y w color s = record { offset = refl; limit = refl }
fill_rows-SameOffset (suc n) x y w color s =
    let k = fill_rows-SameOffset n x _ w color _ in record { offset = k.offset; limit = k.limit }

fill_rect-SameOffset : (r : Rect) (color : ℕ) (s : Screen) → SameOffset s (fill_rect r color s)
unfolding fill_rect
fill_rect-SameOffset r color s =
    let c = adjust_offset s (rotate_rect s.rotate_type s.width s.height (clip s r)) in
    if_both (SameOffset s) (leb s.width r.x || leb s.height r.y || r.w == 0 || r.h == 0)
      (record { offset = refl; limit = refl }) (fill_rows-SameOffset c.h c.x c.y c.w color s)

erase_margin-SameOffset : (top : Bool) (h : ℕ) (s : Screen) → SameOffset s (erase_margin top h s)
unfolding erase_margin
erase_margin-SameOffset top h s = grind (arith, fill_rect-SameOffset)

erase_moved-SameOffset : (all : Bool) (a b : ℕ) (s : Screen) → SameOffset s (erase_moved all a b s)
unfolding erase_moved
erase_moved-SameOffset all a b s = grind (arith, erase_margin-SameOffset)

redraw_around-SameOffset : (a b c d : ℕ) (s : Screen) → SameOffset s (redraw_around a b c d s)
unfolding redraw_around
redraw_around-SameOffset a b c d s = ground arith

-- Where both rows are within a memory that wraps.
Near : ℕ → ℕ → Screen → Type 0
Near srow drow s =
    is_y_wrap s.scroll_type ≡ true
    → (s.font_h * srow ≤ s.offset_max + 1) × (s.font_h * drow ≤ s.offset_max + 1)

move_offset-InRange :
    (scol srow drow top bot right : ℕ) (s : Screen)
    → InRange s.offset_max s.offset_cur
    → Near srow drow s
    → InRange
        (move_offset scol srow drow top bot right s).1.offset_max
        (move_offset scol srow drow top bot right s).1.offset_cur
unfolding move_offset Near
move_offset-InRange scol srow drow top bot right s k near =
    let o = stepped (sub_ℕ (s.font_h * srow) (s.font_h * drow)) s in
    let (offset, all) = limited s.scroll_type s.offset_max o in
    let u = call (setup_offset offset) (record s { offset_cur = offset }) in
    let v = redraw_around top bot scol right u in
    let around = redraw_around-SameOffset top bot scol right u in
    let erased = erase_moved-SameOffset all srow drow v in
    let inside : InRange s.offset_max offset = limited-InRange s.scroll_type s.offset_max o (λ y.
      let (a, b) = near y in
      stepped-bounds (sub_ℕ (s.font_h * srow) (s.font_h * drow)) s.offset_max s k
        (ground (arith, a, b)) (ground (arith, a, b))) in
    rw (erased.offset, erased.limit, around.offset, around.limit) inside

-- From an offset that the device has, `move` leaves one, if the rows it moves are within a memory that
-- wraps.
pub move-InRange :
    (scol srow dcol drow w h : ℕ) (s : Screen)
    → InRange s.offset_max s.offset_cur
    → (is_y_wrap s.scroll_type ≡ true
        → (s.font_h * srow ≤ s.offset_max + 1) × (s.font_h * drow ≤ s.offset_max + 1))
    → InRange
        (move scol srow dcol drow w h s).1.offset_max
        (move scol srow dcol drow w h s).1.offset_cur
unfolding move Near
move-InRange scol srow dcol drow w h s k near =
    let top = if ltb srow drow then srow else drow in
    let bot = u16 ((if ltb drow srow then srow else drow) + h) in
    if_both (λ (p : Bool × Screen). InRange p.1.offset_max p.1.offset_cur)
      (not s.scroll_enable || is_redraw s.scroll_type || not (scol == dcol)) {x = (false, s)} k
      (if_both (λ (p : Bool × Screen). InRange p.1.offset_max p.1.offset_cur)
        (leb (u32 (w * (bot + 4294967295 - top)))
          (u32 (s.cols * s.rows + 18446744073709551616 - w * h)))
        {x = (false, s)} k (move_offset-InRange scol srow drow top bot (u16 (scol + w)) s k near))
