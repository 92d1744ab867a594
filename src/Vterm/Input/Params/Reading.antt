-- ===== src/Vterm/Input/Params/Reading.antt =====
-- The counts of the parser while bytes are read.
use fbterm.Prelude.{
  if_both, if_cases, u32, ◌/◌, ◌%◌, ◌*◌, ℕ, ◌+◌, ◌-◌, ◌≤◌, ◌<◌, ◌≡◌, refl, ℤ, pos, negsuc, true,
  false, not, ◌&&◌, ◌||◌, List, [], ◌∷◌, ltb, ◌==◌, if◌then◌else◌, inl, inr, ◌⊎◌, arith,
}
use fbterm.Charset.{translate_char}
use fbterm.Prelude.Results.{Returns, returns, of_Returns, >>=-Returns, map-Returns}
use fbterm.Vterm.Types.{is_normal}
use fbterm.Vterm.State.{Term, Parser, with_parser}
use fbterm.Vterm.Decode.{Decoded, replacement, pending, char, decode, decode_first, decode_next}
use fbterm.Vterm.Input.{
  do_normal_char, is_shown, char_of_width, take_char, take_decoded, take_rescanned, take_utf8,
  take_byte, take_bytes,
}
use fbterm.Vterm.Input.Frame.{Kept, Kept-refl, put_char-Kept}
use fbterm.Vterm.Input.Params.{InRange, quiet-InRange, do_control_char-InRange}

same_parser-InRange :
    (t u : Term) → InRange t → t.parser.utf8_count ≡ 0 → u.parser ≡ t.parser → InRange u
same_parser-InRange t u r z e =
    quiet-InRange u (grind (arith, r.param_in)) (λ n. grind (arith, r.palette_in)) (ground arith)

char_of_width-Kept : (w : ℤ) (c : ℕ) (t : Term) → Returns (Kept t) (char_of_width w c t)
unfolding char_of_width
char_of_width-Kept (pos w) c t =
    if_both (Returns (Kept t)) (w == 0) (returns (Kept-refl t))
      (of_Returns (put_char-Kept c (w == 2) t))
char_of_width-Kept (negsuc w) c t = returns (Kept-refl t)

-- A change of `cur_char`.
with_char-InRange :
    (c : ℕ) (t : Term) → InRange t → InRange (with_parser t (record (t.parser) { cur_char = c }))
with_char-InRange c t r = record {
  param_in = r.param_in;
  palette_in = r.palette_in;
  bytes_in = r.bytes_in;
  bytes_normal = r.bytes_normal;
  bytes_utf8 = r.bytes_utf8;
  bytes_shown = r.bytes_shown;
}

-- A character that is shown changes `cur_char` in the parser, and no more.
abbrev pub SameReading : Term → Term → Type 0
SameReading t u =
    (u.parser ≡ record (t.parser) { cur_char = u.parser.cur_char }) × (u.flags ≡ t.flags)

pub do_normal_char-SameReading : (t : Term) → Returns (SameReading t) (do_normal_char t)
unfolding do_normal_char
do_normal_char-SameReading t =
    map-Returns (λ u k. (ground (arith, k.parser), k.flags)) (char_of_width-Kept _ _ _)

SameReading-InRange :
    (t u : Term) → InRange t → t.parser.utf8_count ≡ 0 → SameReading t u → InRange u
SameReading-InRange t u r z k =
    same_parser-InRange (with_parser t (record (t.parser) { cur_char = u.parser.cur_char })) u
      (with_char-InRange u.parser.cur_char t r) z k.0

take_char-InRange :
    (c tc : ℕ) (t : Term) → InRange t → t.parser.utf8_count ≡ 0 → Returns InRange (take_char c tc t)
unfolding take_char
take_char-InRange c tc t r z =
    let u = with_parser t (record (t.parser) { cur_char = tc }) in
    let k = with_char-InRange tc t r in
    if_both (Returns InRange) (is_normal t.parser.esc_state && is_shown t c tc)
      (map-Returns (λ v. SameReading-InRange u v k z) (do_normal_char-SameReading u))
      (returns (do_control_char-InRange u k z))

-- A byte is read once more after U+FFFD, which is shown: the reading goes on in the same state.
abbrev Rescans : Parser → ℕ → Term → Type 0
Rescans p c t =
    (c ≡ replacement)
    × (is_normal p.esc_state ≡ true)
    × (p.utf8 ≡ true)
    × (t.flags.display_ctrl ≡ false)

-- What the decoder leaves behind.
unfoldable DecodedInRange : Decoded → Term → Type 0
DecodedInRange (pending p) t = InRange (with_parser t p)
DecodedInRange (char p c rescan) t =
    InRange (with_parser t p) × (p.utf8_count ≡ 0) × (rescan ≡ true → Rescans p c t)

normal_parser-InRange :
    (p : Parser) (t : Term)
    → is_normal p.esc_state ≡ true
    → p.utf8 ≡ true
    → t.flags.display_ctrl ≡ false ⊎ (p.utf8_count ≡ 0)
    → p.npar + p.utf8_count ≤ 5 ⊎ ((p.utf8_count ≡ 0) × (p.npar < 16))
    → InRange (with_parser t p)
normal_parser-InRange p t n u d c = record {
  param_in = ground arith;
  palette_in = λ e. absurd (ground arith);
  bytes_in = ground arith;
  bytes_normal = λ h. n;
  bytes_utf8 = λ h. u;
  bytes_shown = λ h. ground arith;
}

decode_next-InRange :
    (b : ℕ) (t : Term)
    → InRange t
    → is_normal t.parser.esc_state ≡ true
    → t.parser.utf8 ≡ true
    → DecodedInRange (decode_next t.parser b) t
unfolding decode_next DecodedInRange
decode_next-InRange b t r e u =
    let p = t.parser in
    let q = record p {
      cur_char = u32 (p.cur_char * 64 + b % 64);
      npar = p.npar + 1;
      utf8_count = p.utf8_count - 1;
    } in
    if_cases (λ d. DecodedInRange d t) (p.utf8_count == 0)
      (λ h. (r, ground arith, λ n. absurd (ground arith)))
      (λ g.
        if_cases (λ d. DecodedInRange d t) (q.utf8_count == 0)
          (λ h. (
            normal_parser-InRange q t e u (inr (ground arith))
                (inr (ground arith, grind (arith, r.bytes_in))),
            ground arith,
            λ n. absurd (ground arith),
          ))
          (λ h.
            normal_parser-InRange q t e u (inl (r.bytes_shown (ground arith)))
              (inl (grind (arith, r.bytes_in)))))

decode_first-InRange :
    (b : ℕ) (t : Term)
    → is_normal t.parser.esc_state ≡ true
    → t.parser.utf8 ≡ true
    → t.flags.display_ctrl ≡ false
    → t.parser.utf8_count ≡ 0
    → DecodedInRange (decode_first t.parser b) t
unfolding decode_first DecodedInRange
decode_first-InRange b t e u d z =
    let p = t.parser in
    let P = λ (d : Decoded). DecodedInRange d t in
    let begun : (count bits : ℕ)
        → count ≤ 5
        → InRange (with_parser t (record p { npar = 0; utf8_count = count; cur_char = bits })) =
      λ count bits h.
        normal_parser-InRange (record p { npar = 0; utf8_count = count; cur_char = bits }) t e u
          (inl d) (inl (omega arith)) in
    if_both P (b / 32 == 6) (begun 1 _ (omega arith)) (
      if_both P (b / 16 == 14) (begun 2 _ (omega arith)) (
        if_both P (b / 8 == 30) (begun 3 _ (omega arith)) (
          if_both P (b / 4 == 62) (begun 4 _ (omega arith)) (
            if_both P (b / 2 == 126) (begun 5 _ (omega arith)) (
              normal_parser-InRange (record p { npar = 0 }) t e u (inl d) (inr (z, omega arith)),
              z,
              λ n. absurd (ground arith),
            )))))

decode-InRange :
    (b : ℕ) (t : Term)
    → InRange t
    → is_normal t.parser.esc_state ≡ true
    → t.parser.utf8 ≡ true
    → t.flags.display_ctrl ≡ false ⊎ (b < 0x20)
    → DecodedInRange (decode t.parser b) t
unfolding decode DecodedInRange
decode-InRange b t r e u d =
    let p = t.parser in
    let P = λ (d : Decoded). DecodedInRange d t in
    let q = record p { utf8_count = 0 } in
    if_both P (b / 64 == 2) (decode_next-InRange b t r e u) (
      if_cases P (ltb 0 p.utf8_count)
        (λ h. (
          normal_parser-InRange q t e u (inr refl) (inr (refl, r.param_in)),
          refl,
          λ n. (refl, e, u, r.bytes_shown (ground arith)),
        ))
        (λ h.
          if_cases P (ltb 0x7f b) (λ g. decode_first-InRange b t e u (ground arith) (ground arith))
            (λ g. (r, ground arith, λ n. absurd (ground arith)))))

take_rescanned-InRange :
    (d : Decoded) (t : Term) → DecodedInRange d t → Returns InRange (take_rescanned d t)
unfolding take_rescanned DecodedInRange
take_rescanned-InRange (pending p) t k = returns k
take_rescanned-InRange (char p c r) t k = take_char-InRange c c (with_parser t p) k.0 k.1

shown_replacement : (t : Term) → is_shown t replacement replacement ≡ true
unfolding is_shown
shown_replacement t = refl

take_replacement-SameReading :
    (t : Term)
    → is_normal t.parser.esc_state ≡ true
    → Returns (SameReading t) (take_char replacement replacement t)
unfolding take_char
take_replacement-SameReading t n =
    let u = with_parser t (record (t.parser) { cur_char = replacement }) in
    rw (n, shown_replacement t)
      (map-Returns (λ v k. (ground arith, k.1)) (do_normal_char-SameReading u))

take_decoded-InRange :
    (b : ℕ) (d : Decoded) (t : Term) → DecodedInRange d t → Returns InRange (take_decoded b d t)
unfolding take_decoded DecodedInRange
take_decoded-InRange b (pending p) t k = returns k
take_decoded-InRange b (char p c false) t k = take_char-InRange c c (with_parser t p) k.0 k.1
take_decoded-InRange b (char p c true) t k =
    let w = with_parser t p in
    let n = k.2 refl in
    let again : (u : Term)
        → SameReading w u
        → Returns InRange (take_rescanned (decode u.parser b) u) =
      λ u same. take_rescanned-InRange (decode u.parser b) u (
        decode-InRange b u (SameReading-InRange w u k.0 k.1 same) (ground (arith, n, same))
          (ground (arith, n, same)) (inl (ground (arith, n, same)))) in
    >>=-Returns (take_char c c w) _ (rw (n.0) (take_replacement-SameReading w n.1)) again

take_byte-InRange : (b : ℕ) (t : Term) → InRange t → Returns InRange (take_byte b t)
unfolding take_byte take_utf8
take_byte-InRange b t r =
    let meta = if t.flags.toggle_meta then (if ltb b 128 then b + 128 else b) else b in
    if_cases (Returns InRange) (not (is_normal t.parser.esc_state))
      (λ h. take_char-InRange b b t r (ground (arith, r.bytes_normal)))
      (λ n.
        if_cases (Returns InRange) (t.parser.utf8 && (not t.flags.display_ctrl || ltb b 0x20))
          (λ h.
            take_decoded-InRange b (decode t.parser b) t
              (decode-InRange b t r (ground arith) (ground arith) (ground arith)))
          (λ h.
            take_char-InRange b (translate_char t.charsets.charset meta) t r
              (ground (arith, r.bytes_utf8, r.bytes_shown))))

-- On a terminal whose parser counts are in range, whatever bytes it reads, if the loop of `input`
-- returns, they are in range again: `npar` is an index of `param`, fewer than seven palette digits have
-- been read in a palette sequence, and continuation bytes are awaited only where they are read, never
-- so many that their count is past the table of lengths.
pub take_bytes-InRange : (bs : List ℕ) (t : Term) → InRange t → Returns InRange (take_bytes bs t)
unfolding take_bytes
take_bytes-InRange [] t r = returns r
take_bytes-InRange (b ∷ bs) t r =
    >>=-Returns (take_byte b t) (take_bytes bs) (take_byte-InRange b t r) (take_bytes-InRange bs)
