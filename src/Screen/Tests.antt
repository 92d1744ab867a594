-- ===== src/Screen/Tests.antt =====
-- A small screen, on concrete rectangles and moves.
use fbterm.Prelude.{◌≡◌, ◌↔◌, refl, pos, true, false, ◌==◌, if◌then◌else◌, [], ◌∷◌, arith}
use fbterm.Screen.Rotate.{RotateType, rotate90, Rect, rotate_rect, rotate_point}
use fbterm.Screen.Rotate.Points.{Holds, IsOn, rotate_rect-rotate_point}
use fbterm.Screen.Fill.{Screen, y_wrap, fill, clip, fill_rect, fill_rows, adjust_offset, wrap_row}
use fbterm.Screen.Fill.Bounds.{
  IsScrolled, AllInBuffer, buffer_width, buffer_height, fill_rect-AllInBuffer,
}
use fbterm.Screen.Text.{glyph, blank, draw_text, text_loop, at_space, at_glyph, flush, draw_glyphs}
use fbterm.Screen.Text.Glyphs.{glyphs_of, glyphs_at, draw_text-glyphs_at}
use fbterm.Screen.Move.{move}
use fbterm.Screen.Move.Offset.{InRange, move-InRange}

-- 20 columns and 10 rows of pixels in a memory of 10 rows that wraps, of which row 7 is shown first.
abbrev wrapping : Screen
wrapping = record {
  width = 20;
  height = 10;
  cols = 10;
  rows = 5;
  font_w = 2;
  font_h = 2;
  rotate_type = RotateType.rotate0;
  scroll_type = y_wrap;
  scroll_enable = true;
  offset_max = 9;
  offset_cur = pos 7;
  calls = [];
}

abbrev corner : Rect
corner = record { x = 18; y = 2; w = 5; h = 2 }

wrapping-IsScrolled : IsScrolled wrapping
wrapping-IsScrolled = record {
  offset = 7;
  offset_is = refl;
  offset_in = omega arith;
  redraws = λ e. absurd (ground arith);
  wraps = λ e. omega arith;
  small = (omega arith, omega arith, omega arith);
}

corner_test : (fill_rect corner 3 wrapping).calls ≡ fill 18 0 2 3 ∷ fill 18 9 2 3 ∷ []
unfolding fill_rect clip fill_rows adjust_offset wrap_row rotate_rect
corner_test = refl

-- A width that is near the largest number of 32 bits is not cut.
wide_test : (clip wrapping (record { x = 18; y = 2; w = 4294967295; h = 2 })).w ≡ 4294967295
unfolding clip
wide_test = refl

no_calls : AllInBuffer (buffer_width wrapping) (buffer_height wrapping) wrapping.calls
unfolding AllInBuffer
no_calls = tt

fill_rect-AllInBuffer_example :
    AllInBuffer (buffer_width wrapping) (buffer_height wrapping) (fill_rect corner 3 wrapping).calls
fill_rect-AllInBuffer_example =
    fill_rect-AllInBuffer corner 3 wrapping wrapping-IsScrolled (omega arith) (omega arith) no_calls

abbrev inner : Rect
inner = record { x = 3; y = 2; w = 5; h = 2 }

inner-IsOn : IsOn 20 10 inner
inner-IsOn = record { right = omega arith; bottom = omega arith }

rotate_rect-rotate_point_example :
    Holds inner 4 3
    ↔ Holds
        (rotate_rect rotate90 20 10 inner)
        (rotate_point rotate90 20 10 4 3).0
        (rotate_point rotate90 20 10 4 3).1
rotate_rect-rotate_point_example =
    rotate_rect-rotate_point rotate90 20 10 inner 4 3 (omega arith) (omega arith) inner-IsOn
      (omega arith) (omega arith)

text_test :
    draw_text 8 0 4 (λ i. if i == 1 then b' ' else b'a') (λ i. i == 2)
    ≡ glyph 0 b'a' false ∷ blank 8 8 ∷ glyph 16 b'a' true ∷ glyph 32 b'a' false ∷ []
unfolding draw_text text_loop at_space at_glyph flush draw_glyphs
text_test = refl

wrapping-InRange : InRange 9 (pos 7)
unfolding InRange
wrapping-InRange = (refl, omega arith)

move-InRange_example :
    InRange (move 0 1 0 0 10 4 wrapping).1.offset_max (move 0 1 0 0 10 4 wrapping).1.offset_cur
move-InRange_example =
    move-InRange 0 1 0 0 10 4 wrapping wrapping-InRange (λ e. (omega arith, omega arith))

draw_text-glyphs_at_example :
    glyphs_of (draw_text 8 0 4 (λ i. b'a') (λ i. false))
    ≡ glyphs_at 4 0 0 8 (λ i. b'a') (λ i. false)
draw_text-glyphs_at_example = draw_text-glyphs_at 8 0 4 (λ i. b'a') (λ i. false)
