-- ===== src/Shell/Select.antt =====
-- src/lib/shell.cpp: the selection of text by mouse.
pub mod Marked
pub mod Size
pub mod Word
use fbterm.Prelude.{
  ℕ, zero, suc, ◌+◌, ◌-◌, ◌*◌, ◌/◌, ◌%◌, ◌^◌, Bool, true, false, not, xor, ◌||◌, Option, none, some,
  List, [], ◌∷◌, ◌++◌, ltb, leb, ◌==◌, if◌then◌else◌, u16, u32, sub16, Store, put,
}
use fbterm.Vterm.Types.{is_left, is_right, send_back}
use fbterm.Vterm.State.{Term, emit, cell_at}
use fbterm.Vterm.Draw.{expose}
use fbterm.Vterm.Inverse.{inverse, widen_start, widen_end}
use fbterm.Shell.Text.{utf16_to_utf8}

-- The part of `Shell` that selections change: the terminal, `mSelState`, and the text of `mSelText`,
-- which all shells share.
pub record Shell : Type 0 where
  pub term : Term
  pub start : ℕ
  pub end : ℕ
  pub selecting : Bool
  pub color_inversed : Bool
  pub text : Option (List ℕ)

abbrev pub w : Shell → ℕ
w s = s.term.screen.width

-- `charCode`
abbrev pub char_code : Term → ℕ → ℕ → ℕ
char_code t x y = (cell_at t x y).code

-- The bytes of a string in memory, up to the 0 that ends it.
unfoldable pub c_string : List ℕ → List ℕ
c_string [] = []
c_string (b ∷ bs) = let rest = c_string bs in if b == 0 then [] else b ∷ rest

-- `Shell::sendBack`
unfoldable pub send_string : List ℕ → Shell → Shell
send_string bytes s = record s { term = emit (send_back (c_string bytes)) s.term }

-- The calls of `requestUpdate` in `inverseTextColor`.
unfoldable pub show_inversed : ℕ → ℕ → ℕ → ℕ → Term → Term
show_inversed sx sy ex ey t =
    let width = t.screen.width in
    let first = expose sx sy (sub16 (if sy == ey then ex + 1 else width) sx) 1 t in
    let between = if ltb (sy + 1) ey then expose 0 (sy + 1) width (ey - sy - 1) first else first in
    if ltb sy ey then expose 0 ey (u16 (ex + 1)) 1 between else between

-- `Shell::inverseTextColor` from a position to one that is not before it.
unfoldable pub inverse_between : ℕ → ℕ → Term → Term
inverse_between start end t =
    let width = t.screen.width in
    let sx = u16 (start % width) in
    let sy = u16 (start / width) in
    let ex = u16 (end % width) in
    let ey = u16 (end / width) in
    let u = inverse sx sy ex ey t in show_inversed (widen_start u sx sy) sy (widen_end u ex ey) ey u

-- `Shell::inverseTextColor`
unfoldable pub inverse_text_color : ℕ → ℕ → Term → Term
inverse_text_color start end t =
    if ltb end start then inverse_between end start t else inverse_between start end t

-- `Shell::startTextSelect`
unfoldable pub start_text_select : ℕ → ℕ → Shell → Shell
start_text_select x y s =
    let at = y * w s + x in
    record s { start = at; end = at; term = inverse_text_color at at s.term; color_inversed = true }

-- `Shell::resetTextSelect`
unfoldable pub reset_text_select : Shell → Shell
reset_text_select s =
    if s.color_inversed
    then record s {
      selecting = false;
      color_inversed = false;
      term = inverse_text_color s.start s.end s.term;
    }
    else record s { selecting = false }

-- The position next to `pos`, in the selection's direction, past a double width character.
unfoldable pub beside : Bool → ℕ → Term → ℕ
beside forward pos t =
    let type = (cell_at t (pos % t.screen.width) (u16 (pos / t.screen.width))).attr.type in
    if forward
    then u32 ((if is_left type then u32 (pos + 1) else pos) + 1)
    else u32 ((if is_right type then u32 (pos + 4294967295) else pos) + 4294967295)

-- `Shell::middleTextSelect` where the selection keeps its direction.
unfoldable pub stretch : ℕ → ℕ → Bool → Term → Term
stretch end new_end forward t =
    let change = ltb end new_end in
    let at_end = not (xor forward change) in
    let end' = if at_end then beside forward end t else end in
    let new_end' = if at_end then new_end else beside forward new_end t in
    let new_change = if new_end' == end' then change else ltb end' new_end' in
    if xor change new_change then t else inverse_text_color end' new_end' t

-- `Shell::middleTextSelect`
unfoldable pub middle_text_select : ℕ → ℕ → Shell → Shell
middle_text_select x y s =
    let new_end = y * w s + x in
    let forward = leb s.start s.end in
    let moved =
      if xor forward (leb s.start new_end)
      then inverse_text_color s.start new_end (inverse_text_color s.start s.end s.term)
      else stretch s.end new_end forward s.term in
    record s { end = new_end; term = moved }

-- The inner loop of `endTextSelect`, from column `x` to `end` of row `y`.
unfoldable pub row_codes : ℕ → ℕ → ℕ → ℕ → Term → List ℕ
row_codes zero x end y t = []
row_codes (suc n) x end y t =
    let c = cell_at t x y in
    let rest = row_codes n (if is_left c.attr.type then x + 2 else x + 1) end y t in
    if leb x end then c.code ∷ rest else []

-- The outer loop, from row `y` on, where the first row begins at column `x`.
unfoldable pub rows_codes : ℕ → ℕ → ℕ → ℕ → ℕ → Term → List ℕ
rows_codes zero x y ex ey t = []
rows_codes (suc n) x y ex ey t =
    let end = if y == ey then ex else t.screen.width - 1 in
    row_codes (end + 1 - x) x end y t ++ rows_codes n 0 (y + 1) ex ey t

-- The codes that `endTextSelect` reads, from a position to one that is not before it.
unfoldable pub codes_between : ℕ → ℕ → Term → List ℕ
codes_between start end t =
    let width = t.screen.width in
    let sy = u16 (start / width) in
    let ey = u16 (end / width) in
    rows_codes (ey + 1 - sy) (u16 (start % width)) sy (u16 (end % width)) ey t

-- `Shell::endTextSelect`
unfoldable pub end_text_select : Shell → Shell
end_text_select s =
    let start = if ltb s.end s.start then s.end else s.start in
    let end = if ltb s.end s.start then s.start else s.end in
    record s { text = some (utf16_to_utf8 (codes_between start end s.term)) }

-- `Shell::putSelectedText`
unfoldable pub put_selected_text : Shell → Shell
put_selected_text s = elim s.text [ none ↦ s | some text ↦ send_string text s ]

-- `inwordLut`: 32 characters to a word.
unfoldable pub inword_lut : Store ℕ
inword_lut i =
    if i == 1
    then 0x03FF0000
    else if i == 2 || i == 3
    then 0x07FFFFFE
    else if i == 6 || i == 7
    then 0xFF7FFFFF
    else 0

abbrev pub bit : ℕ → ℕ → Bool
bit n i = n / 2 ^ i % 2 == 1

-- The loop that adds the configured characters, which a 0 ends.
unfoldable pub add_word_chars : List ℕ → Store ℕ → Store ℕ
add_word_chars [] lut = lut
add_word_chars (c ∷ cs) lut =
    let set =
      if bit (lut (c / 32)) (c % 32) then lut else put lut (c / 32) (lut (c / 32) + 2 ^ (c % 32)) in
    let rest = add_word_chars cs (if ltb 0x7f c || leb c b' ' then lut else set) in
    if c == 0 then lut else rest

-- `inword`
unfoldable pub inword : Store ℕ → ℕ → Bool
inword lut c = if ltb 0xff c then true else bit (lut (c / 32)) (c % 32)

-- The first loop of `autoTextSelect`, with the adjustment behind it; `code` is that of column `sx`.
unfoldable pub word_start : Store ℕ → Bool → ℕ → (ℕ → ℕ) → ℕ → ℕ
word_start lut inw code char_at zero = 0
word_start lut inw code char_at (suc sx) =
    let rest = word_start lut inw (char_at sx) char_at sx in
    if xor inw (inword lut code) then suc sx + 1 else rest

-- The second loop, with `n` columns left behind column `ex`.
unfoldable pub word_end : ℕ → Store ℕ → Bool → ℕ → (ℕ → ℕ) → ℕ → ℕ
word_end zero lut inw code char_at ex = ex
word_end (suc n) lut inw code char_at ex =
    let rest = word_end n lut inw (char_at (ex + 1)) char_at (ex + 1) in
    if xor inw (inword lut code) then ex - 1 else rest

-- `Shell::autoTextSelect`, with the table of the characters of words.
unfoldable pub auto_text_select : Store ℕ → ℕ → ℕ → Shell → Shell
auto_text_select lut x y s =
    let char_at = λ (i : ℕ). char_code s.term i y in
    let inw = inword lut (char_at x) in
    let start = y * w s + word_start lut inw (char_at x) char_at x in
    let end = y * w s + word_end (w s - 1 - x) lut inw (char_at x) char_at x in
    record s {
      start = start;
      end = end;
      term = inverse_text_color start end s.term;
      color_inversed = true;
    }
