-- ===== src/Shell/Tests.antt =====
-- The shell on concrete events.
use fbterm.Prelude.{
  ℕ, ◌+◌, ◌*◌, ◌≡◌, refl, false, xor, none, [], ◌∷◌, length, ◌==◌, if◌then◌else◌, arith,
}
use fbterm.Vterm.Types.{double_left, double_right, CharType, single, Cell}
use fbterm.Vterm.State.{Term, cell_at}
use fbterm.Vterm.Sample.{small, empty, plain}
use fbterm.Shell.Text.{utf8_of, utf16_to_utf8}
use fbterm.Shell.Select.{
  Shell, inword_lut, char_code, word_start, word_end, inword, rows_codes, row_codes, codes_between,
  auto_text_select, reset_text_select,
}
use fbterm.Shell.Select.Marked.{IsMarked, untraced, reset_text_select-restores}
use fbterm.Shell.Select.Word.{IsWord, auto_text_select-IsWord}
use fbterm.Shell.Mouse.{press, text_select, mouse_bytes}
use fbterm.Shell.Mouse.Marked.{drags, text_select-IsMarked}

abbrev cell_of : ℕ → CharType → Cell
cell_of c t = record { code = c; attr = record plain { type = t } }

-- The first row is a space, `a`, and a character of double width.
abbrev written : Term
written = record small {
  screen = record (small.screen) {
    cells = λ i.
        if i == 13
        then cell_of b'a' single
        else if i == 14
        then cell_of 0x4e2d double_left
        else if i == 15
        then cell_of 0x4e2d double_right
        else empty;
  };
}

abbrev shell : Shell
shell = record {
  term = written;
  start = 0;
  end = 0;
  selecting = false;
  color_inversed = false;
  text = none;
}

-- The selection of one position of a character of double width: three bytes of text, and so no room for
-- the 0 behind them in memory for one position.
one_position_test : length (utf16_to_utf8 (codes_between 2 2 written)) ≡ 3
unfolding utf16_to_utf8 codes_between rows_codes row_codes utf8_of cell_at
one_position_test = refl

-- The space in the first column is selected with the word behind it.
first_column_test :
    ((auto_text_select inword_lut 1 0 shell).start ≡ 0)
    × ((auto_text_select inword_lut 1 0 shell).end ≡ 3)
unfolding auto_text_select word_start xor inword cell_at inword_lut word_end
first_column_test = (refl, refl)

-- In column 223 a byte of the report is 0, which ends it.
cut_test : mouse_bytes 0 223 5 ≡ 27 ∷ b'[' ∷ b'M' ∷ 32 ∷ 0 ∷ 38 ∷ []
unfolding mouse_bytes
cut_test = refl

shell-IsMarked : IsMarked written shell
unfolding IsMarked
shell-IsMarked = refl

press_drags : drags press shell ≡ false
unfolding drags
press_drags = refl

text_select-IsMarked_example : IsMarked written (text_select inword_lut 1 0 press 1 shell)
text_select-IsMarked_example =
    text_select-IsMarked written inword_lut 1 0 press 1 shell press_drags shell-IsMarked

reset_text_select-restores_example :
    untraced (reset_text_select (text_select inword_lut 1 0 press 1 shell)).term ≡ untraced written
reset_text_select-restores_example =
    reset_text_select-restores written (text_select inword_lut 1 0 press 1 shell)
      (text_select-IsMarked written inword_lut 1 0 press 1 shell press_drags shell-IsMarked)

auto_text_select-IsWord_example :
    (a : ℕ) × (b : ℕ) × IsWord inword_lut (λ i. (char_code written i 0)) 4 1 a b
    × ((auto_text_select inword_lut 1 0 shell).start ≡ 0 * 4 + a)
    × ((auto_text_select inword_lut 1 0 shell).end ≡ 0 * 4 + b)
auto_text_select-IsWord_example = auto_text_select-IsWord inword_lut 1 0 shell (omega arith)
