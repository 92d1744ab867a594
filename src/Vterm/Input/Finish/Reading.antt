-- ===== src/Vterm/Input/Finish/Reading.antt =====
-- Outside insert mode `input` returns: the bytes.
use fbterm.Prelude.{
  if_both, if_cases, if_both, if_cases, ap, u32, ◌/◌, ◌%◌, ◌*◌, ℕ, zero, suc, ◌+◌, ◌-◌, ◌<◌, ◌≡◌,
  ◌≢◌, refl, ◌∙◌, ℤ, pos, negsuc, Bool, true, false, not, ◌&&◌, ◌||◌, Option, none, some, List, [],
  ◌∷◌, ltb, ◌==◌, if◌then◌else◌, arith,
}
use fbterm.Charset.{translate_char}
use fbterm.Prelude.Results.{both-Ends, Ends, ends, map-Ends, >>=-Ends}
use fbterm.Vterm.Types.{es_square, is_normal}
use fbterm.Vterm.State.{total_history_lines, Term, Parser, with_parser}
use fbterm.Vterm.Draw.{update, show_cursor}
use fbterm.Vterm.Decode.{
  checked, not_overlong, Decoded, pending, char, decode, decode_first, decode_next,
}
use fbterm.Vterm.Fits.{Fits}
use fbterm.Vterm.Fits.Chars.{input-Fits}
use fbterm.Vterm.Fits.Columns.Chars.{input-Columns}
use fbterm.Vterm.Input.{
  do_normal_char, is_shown, char_of_width, put_char, take_char, is_shown, wrap_line, place_char,
  take_decoded, take_rescanned, take_utf8, take_byte, take_bytes, begin_input, input,
}
use fbterm.Vterm.Input.Frame.{history_display-Kept, show_cursor-Kept, next_line-Kept, update-Kept}
use fbterm.Vterm.Input.Finish.{do_control_char-insert_mode}

-- Outside insert mode a character is placed at once.
place_char-Ends :
    (c : ℕ) (dw : Bool) (t : Term)
    → t.flags.insert_mode ≡ false
    → Ends (λ (u : Term). u.flags ≡ t.flags) (place_char c dw t)
unfolding place_char
place_char-Ends c dw t e = rw e (ends refl)

wrap_line-flags : (dw : Bool) (t u : Term) → wrap_line dw t ≡ some u → u.flags ≡ t.flags
unfolding wrap_line
wrap_line-flags dw t u e = grind (arith, next_line-Kept)

put_char-Ends :
    (c : ℕ) (dw : Bool) (t : Term)
    → t.flags.insert_mode ≡ false
    → Ends (λ (u : Term). u.flags ≡ t.flags) (put_char c dw t)
put_char-Ends c dw t e = unfold put_char in go (wrap_line dw t) refl
  where
    go :
        (o : Option Term)
        → wrap_line dw t ≡ o
        → Ends
            (λ (u : Term). u.flags ≡ t.flags)
            (elim o [ none ↦ some t | some v ↦ place_char c dw v ])
    go none w = ends refl
    go (some v) w =
        let k = wrap_line-flags dw t v w in
        map-Ends (λ u f. f ∙ k) (place_char-Ends c dw v (ap (λ f. f.insert_mode) k ∙ e))

-- Insert mode is off.
abbrev Replaces : Term → Type 0
Replaces t = t.flags.insert_mode ≡ false

char_of_width-Ends : (w : ℤ) (c : ℕ) (t : Term) → Replaces t → Ends Replaces (char_of_width w c t)
unfolding char_of_width
char_of_width-Ends (pos w) c t e =
    if_both (Ends Replaces) (w == 0) (ends e)
      (map-Ends (λ u f. ap (λ f. f.insert_mode) f ∙ e) (put_char-Ends c (w == 2) t e))
char_of_width-Ends (negsuc w) c t e = ends e

do_normal_char-Ends : (t : Term) → Replaces t → Ends Replaces (do_normal_char t)
unfolding do_normal_char
do_normal_char-Ends t e = char_of_width-Ends _ _ _ e

take_char-Ends :
    (c tc : ℕ) (t : Term)
    → (t.parser.esc_state ≡ es_square → tc ≢ b'h')
    → Replaces t
    → Ends Replaces (take_char c tc t)
unfolding take_char
take_char-Ends c tc t h e =
    let u = with_parser t (record (t.parser) { cur_char = tc }) in
    if_both (Ends Replaces) (is_normal t.parser.esc_state && is_shown t c tc)
      (do_normal_char-Ends u e) (ends (do_control_char-insert_mode u h e))

-- The decoder makes the letter `h` of the byte `h` alone: a longer form of it is refused.
abbrev IsOther : Decoded → Type 0
IsOther (pending p) = Unit
IsOther (char p c r) = c ≢ b'h'

not_overlong-other : (n c : ℕ) → checked (not_overlong n c) ≢ b'h'
unfolding checked not_overlong
not_overlong-other zero c = ground arith
not_overlong-other (suc zero) c = ground arith
not_overlong-other (suc (suc zero)) c = ground arith
not_overlong-other (suc (suc (suc zero))) c = ground arith
not_overlong-other (suc (suc (suc (suc zero)))) c = ground arith
not_overlong-other (suc (suc (suc (suc (suc zero))))) c = ground arith
not_overlong-other (suc (suc (suc (suc (suc (suc n)))))) c = ground arith

first-IsOther : (p : Parser) (b : ℕ) → IsOther (decode_first p b)
unfolding decode_first
first-IsOther p b = if_both IsOther (b / 32 == 6) tt (
    if_both IsOther (b / 16 == 14) tt (
      if_both IsOther (b / 8 == 30) tt
        (if_both IsOther (b / 4 == 62) tt (if_both IsOther (b / 2 == 126) tt (λ e. ground arith)))))

decode-IsOther : (p : Parser) (b : ℕ) → b ≢ b'h' → IsOther (decode p b)
unfolding decode decode_next checked
decode-IsOther p b h =
    let q = record p {
      cur_char = u32 (p.cur_char * 64 + b % 64);
      npar = p.npar + 1;
      utf8_count = p.utf8_count - 1;
    } in
    if_both IsOther (b / 64 == 2)
      (if_both IsOther (p.utf8_count == 0) (λ e. ground arith)
        (if_both IsOther (q.utf8_count == 0) (not_overlong-other q.npar q.cur_char) tt))
      (if_both IsOther (ltb 0 p.utf8_count) (λ e. ground arith)
        (if_both IsOther (ltb 0x7f b) (first-IsOther p b) (ground arith)))

take_rescanned-Ends :
    (d : Decoded) (t : Term) → IsOther d → Replaces t → Ends Replaces (take_rescanned d t)
unfolding take_rescanned
take_rescanned-Ends (pending p) t n e = ends e
take_rescanned-Ends (char p c r) t n e = take_char-Ends c c (with_parser t p) (λ s. n) e

take_decoded-Ends :
    (b : ℕ) (d : Decoded) (t : Term)
    → b ≢ b'h'
    → IsOther d
    → Replaces t
    → Ends Replaces (take_decoded b d t)
unfolding take_decoded
take_decoded-Ends b (pending p) t h n e = ends e
take_decoded-Ends b (char p c false) t h n e = take_char-Ends c c (with_parser t p) (λ s. n) e
take_decoded-Ends b (char p c true) t h n e =
    >>=-Ends (take_char c c (with_parser t p)) _ (take_char-Ends c c (with_parser t p) (λ s. n) e)
      (λ u g. take_rescanned-Ends (decode u.parser b) u (decode-IsOther u.parser b h) g)

take_byte-Ends : (b : ℕ) (t : Term) → b ≢ b'h' → Replaces t → Ends Replaces (take_byte b t)
unfolding take_byte take_utf8
take_byte-Ends b t h e =
    let meta = if t.flags.toggle_meta then (if ltb b 128 then b + 128 else b) else b in
    let P = Ends Replaces in
    if_cases P (not (is_normal t.parser.esc_state)) (λ k. take_char-Ends b b t (λ s. h) e)
      (λ k.
        if_both P (t.parser.utf8 && (not t.flags.display_ctrl || ltb b 0x20))
          (take_decoded-Ends b (decode t.parser b) t h (decode-IsOther t.parser b h) e)
          (take_char-Ends b (translate_char t.charsets.charset meta) t (λ s. absurd (ground arith))
            e))

-- The bytes of an input without the letter `h`.
abbrev pub HasNo : ℕ → List ℕ → Type 0
HasNo c [] = Unit
HasNo c (b ∷ bs) = (b ≢ c) × HasNo c bs

take_bytes-Ends :
    (bs : List ℕ) (t : Term) → HasNo b'h' bs → Replaces t → Ends Replaces (take_bytes bs t)
unfolding take_bytes
take_bytes-Ends [] t h e = ends e
take_bytes-Ends (b ∷ bs) t h e =
    >>=-Ends (take_byte b t) (take_bytes bs) (take_byte-Ends b t h.0 e)
      (λ u g. take_bytes-Ends bs u h.1 g)

begin_input-Replaces : (t : Term) → Replaces t → Replaces (begin_input t)
unfolding begin_input
begin_input-Replaces t e =
    let k = history_display-Kept true (pos (total_history_lines t)) t in ground (arith, k.flags)

show_cursor-Replaces : (t : Term) → Replaces t → Replaces (show_cursor t)
show_cursor-Replaces t e = ground (arith, show_cursor-Kept t)

input-Replaces : (bs : List ℕ) (t : Term) → HasNo b'h' bs → Replaces t → Ends Replaces (input bs t)
unfolding input
input-Replaces bs t h e = if_both (Ends Replaces) (t.screen.width == 0) (ends e) (
    >>=-Ends (take_bytes bs (begin_input t)) _
      (take_bytes-Ends bs (begin_input t) h (begin_input-Replaces t e))
      (λ u g. ends (show_cursor-Replaces (update u) (ground (arith, update-Kept u)))))

-- Outside insert mode, on a terminal whose geometry is in order and that has fewer than 65535 columns,
-- `input` returns for every sequence of bytes without the letter `h`, which alone ends a sequence that
-- runs `set_mode`; then insert mode is still off, the geometry is in order, and there are as many columns
-- as before, fewer than the 65535 on which the loop of `expose` may not end.
pub input-Ends :
    (bs : List ℕ) (t : Term)
    → HasNo b'h' bs
    → t.flags.insert_mode ≡ false
    → Fits t.screen
    → t.screen.width < 65535
    → Ends
        (λ (u : Term).
          ((u.flags.insert_mode ≡ false) × Fits u.screen)
          × (u.screen.width ≡ t.screen.width)
          × (u.screen.width < 65535))
        (input bs t)
input-Ends bs t h e f narrow =
    map-Ends (λ u p. (p.0, p.1, omega (arith, p.1, narrow)))
      (both-Ends (both-Ends (input-Replaces bs t h e) (input-Fits bs t f)) (input-Columns bs t))
