-- ===== src/Vterm/Fits/Chars.antt =====
-- The bytes that `input` reads keep the geometry.
use fbterm.Prelude.{
  if_both, ℕ, ◌+◌, ◌≤◌, ◌≡◌, Bool, true, false, ◌&&◌, ◌||◌, not, some, List, [], ◌∷◌, ℤ, pos,
  negsuc, ltb, ◌==◌, if◌then◌else◌, arith,
}
use fbterm.Prelude.Results.{Returns, returns, of_Returns, >>=-Returns}
use fbterm.Charset.{translate_char}
use fbterm.Vterm.Types.{CharAttr, is_normal}
use fbterm.Vterm.State.{Term, Screen, with_parser}
use fbterm.Vterm.Area.{changed_line, move_cursor}
use fbterm.Vterm.Draw.{update, show_cursor}
use fbterm.Vterm.Decode.{Decoded, pending, char, decode}
use fbterm.Vterm.Cursor.{next_line, cr}
use fbterm.Vterm.Input.{
  make_room, write_char, place_char, wrap_line, do_normal_char, is_shown, take_char, take_utf8,
  take_byte, take_bytes, begin_input, input, put_char, char_of_width, take_decoded, take_rescanned,
}
use fbterm.Vterm.Fits.{Fits}
use fbterm.Vterm.Fits.Areas.{changed_line-Fits, update-Fits, show_cursor-Fits, history_display-Fits}
use fbterm.Vterm.Fits.Actions.{next_line-Fits, lf-Fits}
use fbterm.Vterm.Fits.Dispatch.{do_control_char-Fits}

-- If it returns, the terminal fits.
abbrev pub ScreenFits : Term → Type 0
ScreenFits t = Fits t.screen

make_room-Fits :
    (step : ℕ) (s u : Screen)
    → Fits s
    → make_room step s ≡ some u
    → Fits u × (u.cursor_x ≡ s.cursor_x) × (u.width ≡ s.width)
unfolding make_room changed_line
make_room-Fits step s u f e = (ground arith, ground arith, ground arith)

write_char-Fits :
    (c : ℕ) (a : CharAttr) (dw : Bool) (s : Screen)
    → Fits s
    → s.cursor_x + (if dw then 2 else 1) ≤ s.width
    → Fits (write_char c a dw s)
unfolding write_char
write_char-Fits c a true s f h = ground arith
write_char-Fits c a false s f h = ground arith

cursor_x-next_line : (t : Term) → Fits t.screen → (next_line t).screen.cursor_x ≡ 0
unfolding next_line cr move_cursor
cursor_x-next_line t f = ground (arith, lf-Fits t f)

wrap_line-Fits :
    (dw : Bool) (t u : Term)
    → Fits t.screen
    → wrap_line dw t ≡ some u
    → Fits u.screen × (u.screen.cursor_x + (if dw then 2 else 1) ≤ u.screen.width)
unfolding wrap_line
wrap_line-Fits true t u f e = (
  grind (arith, next_line-Fits, cursor_x-next_line),
  grind (arith, next_line-Fits, cursor_x-next_line),
)
wrap_line-Fits false t u f e = (
  grind (arith, next_line-Fits, cursor_x-next_line),
  grind (arith, next_line-Fits, cursor_x-next_line),
)

place_char-Fits :
    (c : ℕ) (dw : Bool) (t u : Term)
    → Fits t.screen
    → t.screen.cursor_x + (if dw then 2 else 1) ≤ t.screen.width
    → place_char c dw t ≡ some u
    → Fits u.screen
unfolding place_char changed_line
place_char-Fits c dw t u f h e = grind (arith, make_room-Fits, write_char-Fits)

put_char-Fits :
    (c : ℕ) (dw : Bool) (t u : Term) → Fits t.screen → put_char c dw t ≡ some u → Fits u.screen
unfolding put_char
put_char-Fits c dw t u f e = grind (arith, wrap_line-Fits, place_char-Fits)

char_of_width-Fits :
    (w : ℤ) (c : ℕ) (t : Term) → Fits t.screen → Returns ScreenFits (char_of_width w c t)
unfolding char_of_width
char_of_width-Fits (pos w) c t f =
    if_both (Returns ScreenFits) (w == 0) (returns f)
      (of_Returns (λ u e. put_char-Fits c (w == 2) t u f e))
char_of_width-Fits (negsuc w) c t f = returns f

do_normal_char-Fits : (t : Term) → Fits t.screen → Returns ScreenFits (do_normal_char t)
unfolding do_normal_char
do_normal_char-Fits t f = char_of_width-Fits _ _ _ f

take_char-Fits : (c tc : ℕ) (t : Term) → Fits t.screen → Returns ScreenFits (take_char c tc t)
unfolding take_char
take_char-Fits c tc t f =
    let u = with_parser t (record (t.parser) { cur_char = tc }) in
    if_both (Returns ScreenFits) (is_normal t.parser.esc_state && is_shown t c tc)
      (do_normal_char-Fits u f) (returns (do_control_char-Fits u f))

take_rescanned-Fits :
    (d : Decoded) (t : Term) → Fits t.screen → Returns ScreenFits (take_rescanned d t)
unfolding take_rescanned
take_rescanned-Fits (pending p) t f = returns f
take_rescanned-Fits (char p c r) t f = take_char-Fits c c (with_parser t p) f

take_decoded-Fits :
    (b : ℕ) (d : Decoded) (t : Term) → Fits t.screen → Returns ScreenFits (take_decoded b d t)
unfolding take_decoded
take_decoded-Fits b (pending p) t f = returns f
take_decoded-Fits b (char p c false) t f = take_char-Fits c c (with_parser t p) f
take_decoded-Fits b (char p c true) t f =
    >>=-Returns (take_char c c (with_parser t p)) _ (take_char-Fits c c (with_parser t p) f)
      (λ u. take_rescanned-Fits (decode u.parser b) u)

take_byte-Fits : (b : ℕ) (t : Term) → Fits t.screen → Returns ScreenFits (take_byte b t)
unfolding take_byte take_utf8
take_byte-Fits b t f =
    let meta = if t.flags.toggle_meta then (if ltb b 128 then b + 128 else b) else b in
    if_both (Returns ScreenFits) (not (is_normal t.parser.esc_state)) (take_char-Fits b b t f) (
      if_both (Returns ScreenFits) (t.parser.utf8 && (not t.flags.display_ctrl || ltb b 0x20))
        (take_decoded-Fits b (decode t.parser b) t f)
        (take_char-Fits b (translate_char t.charsets.charset meta) t f))

pub take_bytes-Fits :
    (bs : List ℕ) (t : Term) → Fits t.screen → Returns ScreenFits (take_bytes bs t)
unfolding take_bytes
take_bytes-Fits [] t f = returns f
take_bytes-Fits (b ∷ bs) t f =
    >>=-Returns (take_byte b t) (take_bytes bs) (take_byte-Fits b t f) (take_bytes-Fits bs)

begin_input-Fits : (t : Term) → Fits t.screen → Fits (begin_input t).screen
unfolding begin_input
begin_input-Fits t f = grind (arith, history_display-Fits, changed_line-Fits)

-- On a terminal whose geometry is in order, whatever bytes it reads, if `input` returns, the geometry
-- is in order again: the cursor is on the screen, at most one column behind the last, the lower margin
-- is on the screen, and the sizes are within those of the arrays.
pub input-Fits : (bs : List ℕ) (t : Term) → Fits t.screen → Returns ScreenFits (input bs t)
unfolding input
input-Fits bs t f = if_both (Returns ScreenFits) (t.screen.width == 0) (returns f) (
    >>=-Returns (take_bytes bs (begin_input t)) (λ u. some (show_cursor (update u)))
      (take_bytes-Fits bs (begin_input t) (begin_input-Fits t f))
      (λ u g. returns (show_cursor-Fits (update u) (update-Fits u g))))
