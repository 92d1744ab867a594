-- ===== src/Vterm/Tests.antt =====
-- Runs of the emulator on small inputs, and the theorems applied to one small terminal.
use fbterm.Prelude.{
  ℕ, Bool, true, false, pos, List, [], ◌∷◌, ◌++◌, Option, none, some, ◌≡◌, ◌≢◌, refl, ◌≤◌, ◌<◌, inl,
  inr, memmove, sub16, arith, ◌+◌, ◌-◌, ◌*◌, Store, if◌then◌else◌,
}
use fbterm.Prelude.Results.{Returns, Ends, ◌>>=◌}
use fbterm.Shell.Text.{utf8_of}
use fbterm.Vterm.State.{
  Term, normal_char_attr, erase_char_attr, get_line, total_history_lines, cell_at, with_parser,
}
use fbterm.Vterm.Area.{clear_area, clear_row, move_cursor, changed_line}
use fbterm.Vterm.Sequences.{
  control_sequences, init_control, init_escape, find_sequence, control_map, escape_map,
  escape_sequences,
}
use fbterm.Prelude.Arrays.{fill}
use fbterm.Vterm.Decode.RoundTrip.{IsCharacter, IsReading, after_char, take_bytes-utf8_of}
use fbterm.Width.Search.{bisearch, bisearch_loop}
use fbterm.Vterm.Scroll.{scroll_region}
use fbterm.Vterm.Scroll.Lines.{OwnLines, scroll_region-OwnLines}
use fbterm.Vterm.Resize.{resize}
use fbterm.Vterm.Resize.Size.{IsSized, resize-IsSized}
use fbterm.Vterm.Fits.{Fits}
use fbterm.Vterm.Fits.Chars.{input-Fits, ScreenFits}
use fbterm.Vterm.Inverse.{inverse}
use fbterm.Vterm.Inverse.Cells.{
  IsStretch, is_between, left_half, right_half, inverted, inverse-inverts,
}
use fbterm.Vterm.Draw.{row_cell, row_start, row_end, row_run, expose_row, expose_loop}
use fbterm.Vterm.Draw.Rows.{expose_row-ends, expose_loop-runs_on}
use fbterm.Vterm.Input.{
  input, take_bytes, take_char, put_char, place_char, make_room, run_action, wrap_line,
}
use fbterm.Vterm.Input.Insert.{make_room-memmove, place_char_runs_on}
use fbterm.Vterm.Input.Params.{InRange}
use fbterm.Vterm.Input.Params.Reading.{take_bytes-InRange}
use fbterm.Vterm.Input.Finish.Reading.{input-Ends}
use fbterm.Vterm.Sample.{empty, small}

-- The same in insert mode, with the cursor in the first column.
abbrev inserting : Term
inserting = record small {
  flags = record (small.flags) { insert_mode = true };
  screen = record (small.screen) { cursor_x = 0 };
}

abbrev keys : List ℕ
keys = b'a' ∷ 13 ∷ 10 ∷ 27 ∷ b'[' ∷ b'2' ∷ b';' ∷ b'3' ∷ b'H' ∷ 0xc3 ∷ 0xa9 ∷ []

small-Fits : Fits small.screen
small-Fits = record {
  two_columns = omega arith;
  one_row = omega arith;
  width_in = omega arith;
  height_in = omega arith;
  max_width_u16 = omega arith;
  max_height_u16 = omega arith;
  cursor_x_in = omega arith;
  cursor_y_in = omega arith;
  scroll_bot_in = omega arith;
}

small-InRange : InRange small
small-InRange = record {
  param_in = omega arith;
  palette_in = λ e. omega arith;
  bytes_in = inr refl;
  bytes_normal = λ h. refl;
  bytes_utf8 = λ h. refl;
  bytes_shown = λ h. refl;
}

small-IsReading : IsReading small
small-IsReading = record { normal = refl; decodes = refl; shows_controls = refl; no_bytes = refl }

han-IsCharacter : IsCharacter 0x4e2d
han-IsCharacter = record { small = omega arith; no_surrogate = inl (omega arith) }

input-Fits_example : Returns ScreenFits (input keys small)
input-Fits_example = input-Fits keys small small-Fits

take_bytes-InRange_example : Returns InRange (take_bytes keys small)
take_bytes-InRange_example = take_bytes-InRange keys small small-InRange

take_bytes-utf8_of_example : take_bytes (utf8_of 0x4e2d ++ keys) small ≡ (
    take_char 0x4e2d 0x4e2d (with_parser small (after_char 0x4e2d small.parser))
    >>= take_bytes keys)
take_bytes-utf8_of_example = take_bytes-utf8_of 0x4e2d keys small han-IsCharacter small-IsReading

input-Ends_example :
    Ends
      (λ (u : Term).
        ((u.flags.insert_mode ≡ false) × Fits u.screen)
        × (u.screen.width ≡ 4)
        × (u.screen.width < 65535))
      (input (b'a' ∷ 10 ∷ []) small)
input-Ends_example =
    input-Ends (b'a' ∷ 10 ∷ []) small (λ e. omega arith, (λ e. omega arith, tt)) refl small-Fits
      (omega arith)

make_room-memmove_example :
    make_room 1 small.screen
    ≡ some (record (changed_line 0 1 3 small.screen) { cells = memmove 14 13 2 (λ i. empty) })
unfolding changed_line
make_room-memmove_example =
    make_room-memmove 1 small.screen (omega arith) (omega arith) (omega arith) (omega arith)

place_char_runs_on_example : place_char b'x' false inserting ≡ none
place_char_runs_on_example = place_char_runs_on b'x' false inserting refl refl

small-OwnLines : OwnLines 3 6 3 small.screen.linenumbers
small-OwnLines = record {
  from = λ y h. omega arith;
  below = λ y h. omega arith;
  apart = λ y z h k e. omega arith;
}

scroll_region-OwnLines_example : OwnLines 3 6 3 (scroll_region 0 2 (pos 1) small).screen.linenumbers
scroll_region-OwnLines_example =
    scroll_region-OwnLines 3 6 0 2 (pos 1) small (omega arith) (omega arith) small-OwnLines

resize-IsSized_example : IsSized 2 1 (resize (λ i. empty) 2 1 small)
resize-IsSized_example =
    resize-IsSized (λ i. empty) 2 1 small small-Fits (omega arith) (omega arith) (omega arith)
      (omega arith)

small-IsStretch : IsStretch small 1 0 2 1
unfolding cell_at get_line total_history_lines
small-IsStretch = record {
  start_in = omega arith;
  start_whole = λ e. omega arith;
  end_in = omega arith;
  row_in = omega arith;
  apart = λ a b h k e. ground (arith, h, k, e);
}

-- From column 1 of the first row to column 2 of the second: column 3 of the second row is behind it.
inverse-inverts_example : cell_at (inverse 1 0 2 1 small) 3 1 ≡ (
    if is_between (left_half small 1 0) 0 (right_half small 2 1) 1 3 1
    then inverted (cell_at small 3 1)
    else cell_at small 3 1)
inverse-inverts_example =
    inverse-inverts 1 0 2 1 small 3 1 small-Fits small-IsStretch (omega arith) (omega arith)

expose_row-ends_example :
    expose_loop 65536 small.flags.inverse_screen 0
      (row_cell small 0)
      (row_end small 0 4 0)
      (row_start small 0 0)
      (row_run small 0 0)
    ≡ some (expose_row small 0 4 0)
expose_row-ends_example = expose_row-ends small 0 4 0 (omega arith) (omega arith) (omega arith)

expose_loop-runs_on_example :
    expose_loop 9 false 0 (λ x. empty) 65535 65534 (row_run small 0 0) ≡ none
expose_loop-runs_on_example =
    expose_loop-runs_on false 0 (λ x. empty) 9 65534 (row_run small 0 0) (omega arith)

-- The first three characters of a row.
abbrev row : ℕ → Term → List ℕ
row y t = (cell_at t 0 y).code ∷ (cell_at t 1 y).code ∷ (cell_at t 2 y).code ∷ []

abbrev row_behind : ℕ → List ℕ → Option (List ℕ)
row_behind y bs = take_bytes bs small >>= λ t. some (row y t)

-- `a`, then the cursor to the first column, `b`, and the rest of the line erased.
redrawn_row :
    row_behind 0 (b'a' ∷ 13 ∷ b'b' ∷ 27 ∷ b'[' ∷ b'K' ∷ []) ≡ some (b'b' ∷ b' ' ∷ b' ' ∷ [])
unfolding take_bytes fbterm.Vterm.Input.take_byte fbterm.Vterm.Input.take_utf8
    fbterm.Vterm.Input.take_decoded fbterm.Vterm.Decode.decode fbterm.Vterm.Decode.checked take_char
    fbterm.Vterm.Input.is_shown fbterm.Vterm.Input.do_normal_char fbterm.Vterm.Input.char_of_width
    fbterm.Width.char_width fbterm.Width.mk_wcwidth bisearch bisearch_loop put_char wrap_line
    place_char fbterm.Vterm.Input.write_char fbterm.Vterm.Input.do_control_char
    fbterm.Vterm.Input.enter_state find_sequence control_map escape_map escape_sequences
    control_sequences init_control init_escape fill run_action fbterm.Vterm.Cursor.cr
    fbterm.Vterm.Modes.clear_param fbterm.Vterm.Edit.erase_line normal_char_attr erase_char_attr
    cell_at get_line total_history_lines changed_line clear_area clear_row move_cursor
    fbterm.Prelude.Loops.for_range
redrawn_row = refl
