-- ===== src/Screen/Fill/Bounds.antt =====
-- `fillRect` writes to the frame buffer only.
use fbterm.Prelude.{
  ℕ, zero, suc, ◌+◌, ◌*◌, ◌≤◌, ◌<◌, ◌≡◌, refl, ap, ℤ, pos, true, false, ◌||◌, List, [], ◌∷◌, inl,
  inr, Bool-cases, leb, ◌==◌, if◌then◌else◌, if_cases, u32, arith,
}
use fbterm.Screen.Rotate.{RotateType, rotate0, rotate90, rotate180, rotate270, Rect, rotate_rect}
use fbterm.Screen.Rotate.Points.{IsOn, raw_width, raw_height, rotate_rect-IsOn}
use fbterm.Screen.Fill.{
  add_offset, Screen, ScrollType, redraw_all, y_pan, y_wrap, x_pan, Call, fill, setup_offset,
  redraw, call, is_redraw, is_x_pan, is_y_wrap, adjust_offset, wrap_row, fill_rows, clip, fill_rect,
}

-- The columns and the rows of the frame buffer, the part that is not shown included.
abbrev pub buffer_width : Screen → ℕ
buffer_width s =
    raw_width s.rotate_type s.width s.height + (if is_x_pan s.scroll_type then s.offset_max else 0)

abbrev pub buffer_height : Screen → ℕ
buffer_height s = elim s.scroll_type [
  | redraw_all ↦ raw_height s.rotate_type s.width s.height
  | x_pan ↦ raw_height s.rotate_type s.width s.height
  | y_pan ↦ raw_height s.rotate_type s.width s.height + s.offset_max
  | y_wrap ↦ s.offset_max + 1
]

-- The offset is one that the device has, and the sizes are small.
pub record IsScrolled (s : Screen) : Type 0 where
  pub offset : ℕ
  pub offset_is : s.offset_cur ≡ pos offset
  pub offset_in : offset ≤ s.offset_max
  pub redraws : is_redraw s.scroll_type ≡ true → offset ≡ 0
  pub wraps :
      is_y_wrap s.scroll_type ≡ true → raw_height s.rotate_type s.width s.height ≤ s.offset_max + 1
  pub small : (s.width < 65536) × (s.height < 65536) × (s.offset_max < 65536)

-- The call does not write outside a buffer of this size.
unfoldable pub InBuffer : ℕ → ℕ → Call → Type 0
InBuffer columns rows (fill x y w color) = (x + w ≤ columns) × (y < rows)
InBuffer columns rows (setup_offset o) = Unit
InBuffer columns rows (redraw x y w h) = Unit

unfoldable pub AllInBuffer : ℕ → ℕ → List Call → Type 0
AllInBuffer columns rows [] = Unit
AllInBuffer columns rows (c ∷ cs) = InBuffer columns rows c × AllInBuffer columns rows cs

-- The row `y`, from which `n` rows are left, can be written.
record Fits (s : Screen) (rows n y : ℕ) : Type 0 where
  wrapped : is_y_wrap s.scroll_type ≡ true → (rows ≡ s.offset_max + 1) × (y < 2 * rows)
  plain : is_y_wrap s.scroll_type ≡ false → y + n ≤ rows
  small : rows < 4294967295

wrap_row-Fits :
    (s : Screen) (rows n y : ℕ)
    → Fits s rows (suc n) y
    → (wrap_row s y < rows) × Fits s rows n (u32 (wrap_row s y + 1))
unfolding wrap_row
wrap_row-Fits s rows n y k = elim (Bool-cases (is_y_wrap s.scroll_type)) [
  | inl h ↦
      let w = k.wrapped h in
      let lt : wrap_row s y < rows = ground (arith, h, w.0, w.1) in
      (
        lt,
        record {
          wrapped = λ e. (w.0, omega (arith, lt, k.small));
          plain = λ e. absurd (cc (e, h));
          small = k.small;
        },
      )
  | inr h ↦
      let p = k.plain h in
      let same : wrap_row s y ≡ y = ground (arith, h) in
      (
        omega (arith, same, p),
        record {
          wrapped = λ e. absurd (cc (e, h));
          plain = λ e. omega (arith, same, p);
          small = k.small;
        },
      )
]

fill_rows-AllInBuffer :
    (n x y w color columns rows : ℕ) (s : Screen)
    → x + w ≤ columns
    → Fits s rows n y
    → AllInBuffer columns rows s.calls
    → AllInBuffer columns rows (fill_rows n x y w color s).calls
unfolding fill_rows AllInBuffer InBuffer
fill_rows-AllInBuffer zero x y w color columns rows s a f k = k
fill_rows-AllInBuffer (suc n) x y w color columns rows s a f k =
    let at = wrap_row s y in
    let (lt, next) = wrap_row-Fits s rows n y f in
    fill_rows-AllInBuffer n x (u32 (at + 1)) w color columns rows (call (fill x at w color) s) a
      (record { wrapped = next.wrapped; plain = next.plain; small = next.small }) ((a, lt), k)

clip-IsOn :
    (s : Screen) (r : Rect)
    → r.x < s.width
    → r.y < s.height
    → r.x + r.w < 4294967296
    → r.y + r.h < 4294967296
    → IsOn s.width s.height (clip s r)
unfolding clip
clip-IsOn s r a b c d = record { right = ground (arith, a, c); bottom = ground (arith, b, d) }

raw_small :
    (type : RotateType) (width height : ℕ)
    → width < 65536
    → height < 65536
    → (raw_width type width height < 65536) × (raw_height type width height < 65536)
raw_small rotate0 width height a b = (a, b)
raw_small rotate90 width height a b = (b, a)
raw_small rotate180 width height a b = (a, b)
raw_small rotate270 width height a b = (b, a)

added :
    (n offset : ℕ) (z : ℤ)
    → z ≡ pos offset
    → n < 65536
    → offset < 65536
    → add_offset n z ≡ n + offset
added n offset z e a b = rw e (omega arith)

-- Where the rectangle is in the buffer.
adjust_offset-Fits :
    (s : Screen) (r : Rect)
    → IsScrolled s
    → IsOn (raw_width s.rotate_type s.width s.height) (raw_height s.rotate_type s.width s.height) r
    → ((adjust_offset s r).x + (adjust_offset s r).w ≤ buffer_width s)
      × Fits s (buffer_height s) (adjust_offset s r).h (adjust_offset s r).y
unfolding adjust_offset
adjust_offset-Fits s r k o = go s.scroll_type refl
  where
    sizes :
        (raw_width s.rotate_type s.width s.height < 65536)
        × (raw_height s.rotate_type s.width s.height < 65536)
    sizes = raw_small s.rotate_type s.width s.height k.small.0 k.small.1

    x_at : add_offset r.x s.offset_cur ≡ r.x + k.offset
    x_at =
        added r.x k.offset s.offset_cur k.offset_is (omega (arith, o.right, sizes.0))
          (omega (arith, k.offset_in, k.small))

    y_at : add_offset r.y s.offset_cur ≡ r.y + k.offset
    y_at =
        added r.y k.offset s.offset_cur k.offset_is (omega (arith, o.bottom, sizes.1))
          (omega (arith, k.offset_in, k.small))

    go :
        (t : ScrollType)
        → s.scroll_type ≡ t
        → ((adjust_offset s r).x + (adjust_offset s r).w ≤ buffer_width s)
          × Fits s (buffer_height s) (adjust_offset s r).h (adjust_offset s r).y
    go redraw_all e = rw e (
      omega (arith, o.right),
      record {
        wrapped = λ h. absurd (ground arith);
        plain = λ h. omega (arith, y_at, o.bottom, k.redraws (ap is_redraw e));
        small = omega (arith, sizes.1, k.small);
      },
    )
    go y_pan e = rw e (
      omega (arith, o.right),
      record {
        wrapped = λ h. absurd (ground arith);
        plain = λ h. omega (arith, y_at, o.bottom, k.offset_in);
        small = omega (arith, sizes.1, k.small);
      },
    )
    go y_wrap e = rw e (
      omega (arith, o.right),
      record {
        wrapped = λ h. (refl, omega (arith, y_at, o.bottom, k.offset_in, k.wraps (ap is_y_wrap e)));
        plain = λ h. absurd (ground arith);
        small = omega (arith, sizes.1, k.small);
      },
    )
    go x_pan e = rw e (
      omega (arith, x_at, o.right, k.offset_in),
      record {
        wrapped = λ h. absurd (ground arith);
        plain = λ h. omega (arith, o.bottom);
        small = omega (arith, sizes.1, k.small);
      },
    )

-- On a screen with an offset that its device has, a rectangle whose ends are numbers of 32 bits is filled
-- in the frame buffer only.
pub fill_rect-AllInBuffer :
    (r : Rect) (color : ℕ) (s : Screen)
    → IsScrolled s
    → r.x + r.w < 4294967296
    → r.y + r.h < 4294967296
    → AllInBuffer (buffer_width s) (buffer_height s) s.calls
    → AllInBuffer (buffer_width s) (buffer_height s) (fill_rect r color s).calls
unfolding fill_rect
fill_rect-AllInBuffer r color s i a b k =
    if_cases (λ (u : Screen). AllInBuffer (buffer_width s) (buffer_height s) u.calls)
      (leb s.width r.x || leb s.height r.y || r.w == 0 || r.h == 0) (λ y. k)
      (λ n.
        let x_in : r.x < s.width = ground (arith, n) in
        let y_in : r.y < s.height = ground (arith, n) in
        let on =
          rotate_rect-IsOn s.rotate_type s.width s.height (clip s r) (omega (arith, i.small))
            (omega (arith, i.small)) (clip-IsOn s r x_in y_in a b) in
        let (x_fits, y_fits) =
          adjust_offset-Fits s (rotate_rect s.rotate_type s.width s.height (clip s r)) i on in
        fill_rows-AllInBuffer _ _ _ _ color (buffer_width s) (buffer_height s) s x_fits y_fits k)
