-- ===== src/Vterm/Decode.antt =====
-- src/lib/vterm.cpp: the UTF-8 decoder inside `VTerm::input`, from `rescan_last_byte` on.
pub mod RoundTrip
use fbterm.Prelude.{
  ℕ, ◌+◌, ◌-◌, ◌*◌, ◌/◌, ◌%◌, Bool, true, false, ◌||◌, List, [], ◌∷◌, ltb, leb, ◌==◌, if◌then◌else◌,
  within, u32, get_or,
}
use fbterm.Vterm.State.{Parser}

-- What a byte leads to: more bytes are needed, or a character is complete. The flag is `rescan`:
-- the byte has broken off a sequence, and is to be read once more.
pub data Decoded : Type 0 where
  pending : Parser → Decoded
  char : Parser → (c : ℕ) → (rescan : Bool) → Decoded

-- U+FFFD
abbrev pub replacement : ℕ
replacement = 0xfffd

-- `utf8_length_changes`
abbrev pub utf8_length_changes : List ℕ
utf8_length_changes =
    0x0000007f ∷ 0x000007ff ∷ 0x0000ffff ∷ 0x001fffff ∷ 0x03ffffff ∷ 0x7fffffff ∷ []

-- The tests on a complete character.
unfoldable pub checked : ℕ → ℕ
checked c = if within 0xd800 0xdfff c || c == 0xfffe || c == 0xffff then replacement else c

-- The test on a character of `npar` continuation bytes: it needs as many.
unfoldable pub not_overlong : ℕ → ℕ → ℕ
not_overlong npar c =
    if leb c (get_or utf8_length_changes (npar - 1) 0) || ltb (get_or utf8_length_changes npar 0) c
    then replacement
    else c

-- A continuation byte.
unfoldable pub decode_next : Parser → ℕ → Decoded
unfolding checked not_overlong
decode_next p b =
    let q = record p {
      cur_char = u32 (p.cur_char * 64 + b % 64);
      npar = p.npar + 1;
      utf8_count = p.utf8_count - 1;
    } in
    if p.utf8_count == 0
    then char p replacement false
    else if q.utf8_count == 0
    then char q (checked (not_overlong q.npar q.cur_char)) false
    else pending q

-- The start of a sequence that needs `count` more bytes.
abbrev begin : ℕ → ℕ → Parser → Decoded
begin count bits p = pending (record p { npar = 0; utf8_count = count; cur_char = bits })

-- The first byte of a sequence, or a byte that stands alone.
unfoldable pub decode_first : Parser → ℕ → Decoded
unfolding checked
decode_first p b =
    if b / 32 == 6
    then begin 1 (b % 32) p
    else if b / 16 == 14
    then begin 2 (b % 16) p
    else if b / 8 == 30
    then begin 3 (b % 8) p
    else if b / 4 == 62
    then begin 4 (b % 4) p
    else if b / 2 == 126
    then begin 5 (b % 2) p
    else char (record p { npar = 0 }) replacement false

-- A byte, with `utf8` set.
unfoldable pub decode : Parser → ℕ → Decoded
unfolding decode_next decode_first checked
decode p b =
    if b / 64 == 2
    then decode_next p b
    else if ltb 0 p.utf8_count
    then char (record p { utf8_count = 0 }) replacement true
    else if ltb 0x7f b
    then decode_first p b
    else char p (checked b) false
