-- ===== src/Vterm/Fits/Columns/Chars.antt =====
-- The bytes that `input` reads do not change the number of columns.
use fbterm.Prelude.{
  if_both, ℕ, ◌+◌, ◌≡◌, refl, ◌∙◌, Bool, true, false, ◌&&◌, ◌||◌, not, some, List, [], ◌∷◌, ℤ, pos,
  negsuc, ltb, ◌==◌, if◌then◌else◌, arith,
}
use fbterm.Prelude.Results.{Returns, returns, of_Returns, >>=-Returns}
use fbterm.Charset.{translate_char}
use fbterm.Vterm.Types.{CharAttr, is_normal}
use fbterm.Vterm.State.{Term, Screen, with_parser}
use fbterm.Vterm.Area.{changed_line}
use fbterm.Vterm.Draw.{update, show_cursor}
use fbterm.Vterm.Decode.{Decoded, pending, char, decode}
use fbterm.Vterm.Input.{
  make_room, write_char, place_char, wrap_line, do_normal_char, is_shown, take_char, take_utf8,
  take_byte, take_bytes, begin_input, input, put_char, char_of_width, take_decoded, take_rescanned,
}
use fbterm.Vterm.Fits.Columns.{
  changed_line-width, update-width, show_cursor-width, history_display-width,
}
use fbterm.Vterm.Fits.Columns.Actions.{next_line-width, do_control_char-width}

-- The screen has `n` columns.
abbrev pub Columns : ℕ → Term → Type 0
Columns n t = t.screen.width ≡ n

make_room-width : (step : ℕ) (s u : Screen) → make_room step s ≡ some u → u.width ≡ s.width
unfolding make_room changed_line
make_room-width step s u e = ground arith

write_char-width :
    (c : ℕ) (a : CharAttr) (dw : Bool) (s : Screen) → (write_char c a dw s).width ≡ s.width
unfolding write_char
write_char-width c a true s = refl
write_char-width c a false s = refl

wrap_line-width :
    (dw : Bool) (t u : Term) → wrap_line dw t ≡ some u → u.screen.width ≡ t.screen.width
unfolding wrap_line
wrap_line-width dw t u e = grind (arith, next_line-width)

place_char-width :
    (c : ℕ) (dw : Bool) (t u : Term) → place_char c dw t ≡ some u → u.screen.width ≡ t.screen.width
unfolding place_char changed_line
place_char-width c dw t u e = grind (arith, make_room-width, write_char-width)

put_char-width :
    (c : ℕ) (dw : Bool) (t u : Term) → put_char c dw t ≡ some u → u.screen.width ≡ t.screen.width
unfolding put_char
put_char-width c dw t u e = grind (arith, wrap_line-width, place_char-width)

module _ (n : ℕ) where
  char_of_width-Columns :
      (w : ℤ) (c : ℕ) (t : Term) → Columns n t → Returns (Columns n) (char_of_width w c t)
  unfolding char_of_width
  char_of_width-Columns (pos w) c t f =
      if_both (Returns (Columns n)) (w == 0) (returns f)
        (of_Returns (λ u e. put_char-width c (w == 2) t u e ∙ f))
  char_of_width-Columns (negsuc w) c t f = returns f

  do_normal_char-Columns : (t : Term) → Columns n t → Returns (Columns n) (do_normal_char t)
  unfolding do_normal_char
  do_normal_char-Columns t f = char_of_width-Columns _ _ _ f

  take_char-Columns : (c tc : ℕ) (t : Term) → Columns n t → Returns (Columns n) (take_char c tc t)
  unfolding take_char
  take_char-Columns c tc t f =
      let u = with_parser t (record (t.parser) { cur_char = tc }) in
      if_both (Returns (Columns n)) (is_normal t.parser.esc_state && is_shown t c tc)
        (do_normal_char-Columns u f) (returns (do_control_char-width u ∙ f))

  take_rescanned-Columns :
      (d : Decoded) (t : Term) → Columns n t → Returns (Columns n) (take_rescanned d t)
  unfolding take_rescanned
  take_rescanned-Columns (pending p) t f = returns f
  take_rescanned-Columns (char p c r) t f = take_char-Columns c c (with_parser t p) f

  take_decoded-Columns :
      (b : ℕ) (d : Decoded) (t : Term) → Columns n t → Returns (Columns n) (take_decoded b d t)
  unfolding take_decoded
  take_decoded-Columns b (pending p) t f = returns f
  take_decoded-Columns b (char p c false) t f = take_char-Columns c c (with_parser t p) f
  take_decoded-Columns b (char p c true) t f =
      >>=-Returns (take_char c c (with_parser t p)) _ (take_char-Columns c c (with_parser t p) f)
        (λ u. take_rescanned-Columns (decode u.parser b) u)

  take_byte-Columns : (b : ℕ) (t : Term) → Columns n t → Returns (Columns n) (take_byte b t)
  unfolding take_byte take_utf8
  take_byte-Columns b t f =
      let meta = if t.flags.toggle_meta then (if ltb b 128 then b + 128 else b) else b in
      if_both (Returns (Columns n)) (not (is_normal t.parser.esc_state)) (take_char-Columns b b t f)
        (if_both (Returns (Columns n)) (t.parser.utf8 && (not t.flags.display_ctrl || ltb b 0x20))
          (take_decoded-Columns b (decode t.parser b) t f)
          (take_char-Columns b (translate_char t.charsets.charset meta) t f))

  take_bytes-Columns :
      (bs : List ℕ) (t : Term) → Columns n t → Returns (Columns n) (take_bytes bs t)
  unfolding take_bytes
  take_bytes-Columns [] t f = returns f
  take_bytes-Columns (b ∷ bs) t f =
      >>=-Returns (take_byte b t) (take_bytes bs) (take_byte-Columns b t f) (take_bytes-Columns bs)

begin_input-width : (t : Term) → (begin_input t).screen.width ≡ t.screen.width
unfolding begin_input
begin_input-width t = grind (arith, history_display-width, changed_line-width)

-- Whatever bytes arrive, if `input` returns, the screen has as many columns as before.
pub input-Columns : (bs : List ℕ) (t : Term) → Returns (Columns t.screen.width) (input bs t)
unfolding input
input-Columns bs t =
    if_both (Returns (Columns t.screen.width)) (t.screen.width == 0) (returns refl) (
      >>=-Returns (take_bytes bs (begin_input t)) (λ u. some (show_cursor (update u)))
        (take_bytes-Columns t.screen.width bs (begin_input t) (begin_input-width t))
        (λ u g. returns (show_cursor-width (update u) ∙ update-width u ∙ g)))
