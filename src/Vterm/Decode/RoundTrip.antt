-- ===== src/Vterm/Decode/RoundTrip.antt =====
-- The emulator reads what `utf16_to_utf8` of src/lib/shell.cpp writes.
use fbterm.Prelude.{
  ℕ, ◌+◌, ◌/◌, ◌%◌, ◌≤◌, ◌<◌, ◌≡◌, ◌⊎◌, inl, inr, true, false, List, ◌++◌, ltb, if◌then◌else◌,
  Bool-cases, arith, some,
}
use fbterm.Vterm.Types.{es_normal}
use fbterm.Vterm.State.{Term, Parser, with_parser}
use fbterm.Vterm.Decode.{pending, char, decode, decode_first, decode_next, checked, not_overlong}
use fbterm.Vterm.Input.{take_char, take_decoded, take_utf8, take_byte, take_bytes}
use fbterm.Prelude.Results.{◌>>=◌}
use fbterm.Shell.Text.{utf8_of}

-- A code of the Basic Multilingual Plane that stands for a character.
pub record IsCharacter (c : ℕ) : Type 0 where
  pub small : c < 0xfffe
  pub no_surrogate : (c < 0xd800) ⊎ (0xdfff < c)

checked_character : (c : ℕ) → IsCharacter c → checked c ≡ c
unfolding checked
checked_character c h = ground arith

decode_ascii : (p : Parser) (c : ℕ) → p.utf8_count ≡ 0 → c < 128 → decode p c ≡ char p c false
unfolding decode checked
decode_ascii p c z h = ground arith

decode_lead2 :
    (p : Parser) (c : ℕ)
    → p.utf8_count ≡ 0
    → c < 2048
    → decode p (0xc0 + c / 64 % 32)
      ≡ pending (record p { npar = 0; utf8_count = 1; cur_char = c / 64 })
unfolding decode decode_first
decode_lead2 p c z h = ground arith

decode_lead3 :
    (p : Parser) (c : ℕ)
    → p.utf8_count ≡ 0
    → c < 65536
    → decode p (0xe0 + c / 4096)
      ≡ pending (record p { npar = 0; utf8_count = 2; cur_char = c / 4096 })
unfolding decode decode_first
decode_lead3 p c z h = ground arith

decode_middle :
    (p : Parser) (c : ℕ)
    → p.utf8_count ≡ 2
    → c < 65536
    → p.cur_char ≡ c / 4096
    → decode p (0x80 + c / 64 % 64)
      ≡ pending (record p { npar = p.npar + 1; utf8_count = 1; cur_char = c / 64 })
unfolding decode decode_next
decode_middle p c z h e = ground arith

decode_last2 :
    (p : Parser) (c : ℕ)
    → p.utf8_count ≡ 1
    → p.npar ≡ 0
    → 128 ≤ c
    → c < 2048
    → p.cur_char ≡ c / 64
    → decode p (0x80 + c % 64) ≡ char (record p { npar = 1; utf8_count = 0; cur_char = c }) c false
unfolding decode decode_next not_overlong checked
decode_last2 p c z n lo hi e = ground arith

decode_last3 :
    (p : Parser) (c : ℕ)
    → p.utf8_count ≡ 1
    → p.npar ≡ 1
    → 2048 ≤ c
    → IsCharacter c
    → p.cur_char ≡ c / 64
    → decode p (0x80 + c % 64) ≡ char (record p { npar = 2; utf8_count = 0; cur_char = c }) c false
unfolding decode decode_next not_overlong checked
decode_last3 p c z n lo hi e = ground arith

-- The next byte is read as the start of a UTF-8 character.
pub record IsReading (t : Term) : Type 0 where
  pub normal : t.parser.esc_state ≡ es_normal
  pub decodes : t.parser.utf8 ≡ true
  pub shows_controls : t.flags.display_ctrl ≡ false
  pub no_bytes : t.parser.utf8_count ≡ 0

-- The parser behind a character of one to three bytes.
unfoldable pub after_char : ℕ → Parser → Parser
after_char c p =
    if ltb c 128
    then p
    else record p { npar = if ltb c 2048 then 1 else 2; utf8_count = 0; cur_char = c }

take_byte_pending :
    (t : Term) (b : ℕ) (p : Parser)
    → t.parser.esc_state ≡ es_normal
    → t.parser.utf8 ≡ true
    → t.flags.display_ctrl ≡ false
    → decode t.parser b ≡ pending p
    → take_byte b t ≡ some (with_parser t p)
unfolding take_byte take_utf8 take_decoded
take_byte_pending t b p n u d e = ground arith

take_byte_char :
    (t : Term) (b : ℕ) (p : Parser) (c : ℕ)
    → t.parser.esc_state ≡ es_normal
    → t.parser.utf8 ≡ true
    → t.flags.display_ctrl ≡ false
    → decode t.parser b ≡ char p c false
    → take_byte b t ≡ take_char c c (with_parser t p)
unfolding take_byte take_utf8 take_decoded
take_byte_char t b p c n u d e = ground arith

-- For every character of the Basic Multilingual Plane, the bytes that `utf16_to_utf8` writes for it
-- lead the emulator, when it reads text, to take that very character, and then the bytes behind.
pub take_bytes-utf8_of :
    (c : ℕ) (rest : List ℕ) (t : Term)
    → IsCharacter c
    → IsReading t
    → take_bytes (utf8_of c ++ rest) t
      ≡ (take_char c c (with_parser t (after_char c t.parser)) >>= take_bytes rest)
unfolding take_bytes utf8_of after_char
take_bytes-utf8_of c rest t h r = elim (Bool-cases (ltb c 128)) [
  | inl ascii ↦ ground (arith, take_byte_char t c t.parser c, decode_ascii t.parser c)
  | inr more ↦ elim (Bool-cases (ltb c 2048)) [
    | inl two ↦
        let p = record (t.parser) { npar = 0; utf8_count = 1; cur_char = c / 64 } in
        let q = record (t.parser) { npar = 1; utf8_count = 0; cur_char = c } in
        ground (
          arith,
          take_byte_pending t (0xc0 + c / 64 % 32) p,
          decode_lead2 t.parser c,
          take_byte_char (with_parser t p) (0x80 + c % 64) q c,
          decode_last2 p c,
        )
    | inr three ↦
        let p = record (t.parser) { npar = 0; utf8_count = 2; cur_char = c / 4096 } in
        let m = record (t.parser) { npar = 1; utf8_count = 1; cur_char = c / 64 } in
        let q = record (t.parser) { npar = 2; utf8_count = 0; cur_char = c } in
        ground (
          arith,
          take_byte_pending t (0xe0 + c / 4096) p,
          decode_lead3 t.parser c,
          take_byte_pending (with_parser t p) (0x80 + c / 64 % 64) m,
          decode_middle p c,
          take_byte_char (with_parser t m) (0x80 + c % 64) q c,
          decode_last3 m c,
        )
  ]
]
