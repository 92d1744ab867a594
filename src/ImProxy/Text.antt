-- ===== src/ImProxy/Text.antt =====
-- src/improxy.cpp: `utf8_to_utf16`, which reads the text of a `DrawText` message.
pub mod RoundTrip
use fbterm.Prelude.{
  ℕ, zero, pos_part, suc, ◌+◌, ◌-◌, ◌*◌, ◌/◌, ◌%◌, Bool, List, [], ◌∷◌, map, ltb, ◌==◌,
  if◌then◌else◌, Store,
}
use fbterm.Width.{char_width}

-- `utf8 + 1`
abbrev pub behind : Store ℕ → Store ℕ
behind text i = text (suc i)

-- The loop, with `len` bytes up to `end`. What stands behind them is read where they stop within a
-- character.
unfoldable pub decode_loop : ℕ → ℕ → Store ℕ → List ℕ
decode_loop zero len text = []
decode_loop (suc n) len text =
    let b = text 0 in
    let one = decode_loop n (len - 1) (behind text) in
    let two = decode_loop n (len - 2) (behind (behind text)) in
    let three = decode_loop n (len - 3) (behind (behind (behind text))) in
    if len == 0
    then []
    else if ltb b 128
    then b ∷ one
    else if b / 32 == 6
    then (b % 32 * 64 + text 1 % 64) ∷ two
    else if b / 16 == 14
    then (b % 16 * 4096 + text 1 % 64 * 64 + text 2 % 64) ∷ three
    else one

-- `utf8_to_utf16`; a round reads a byte at least.
unfoldable pub utf8_to_utf16 : Store ℕ → ℕ → List ℕ
utf8_to_utf16 text len = decode_loop len len text

-- `doDrawText`: the codes, and which of them are of double width, for `Screen::drawText`.
unfoldable pub text_to_draw : Bool → Store ℕ → ℕ → List ℕ × List Bool
text_to_draw ambiguous_wide text len =
    let codes = utf8_to_utf16 text len in
    (codes, map (λ c. pos_part (char_width ambiguous_wide c) == 2) codes)
