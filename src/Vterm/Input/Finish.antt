-- ===== src/Vterm/Input/Finish.antt =====
-- Outside insert mode `input` returns.
pub mod Reading
use fbterm.Prelude.{
  if_both, if_cases, if_both, if_cases, ap, u32, ◌/◌, ◌%◌, ◌*◌, ℕ, zero, suc, ◌+◌, ◌-◌, ◌≤◌, ◌<◌,
  ◌≡◌, ◌≢◌, refl, ◌∙◌, ℤ, pos, negsuc, Bool, true, false, not, ◌&&◌, ◌||◌, Option, none, some, List,
  [], ◌∷◌, ltb, leb, ◌==◌, if◌then◌else◌, inl, inr, ◌⊎◌, Bool-cases, arith,
}
use fbterm.Prelude.Loops.{for_range-keeps, for_range}
use fbterm.Charset.{translate_char}
use fbterm.Prelude.Results.{
  Ends, ends, map-Ends, >>=-Ends, ◌>>=◌, Returns, runs_on, returns, of_Returns, >>=-Returns,
  map-Returns,
}
use fbterm.Vterm.Types.{
  new_mode_flag, EscapeState, es_normal, es_square, es_nonstd, es_keep, is_normal,
}
use fbterm.Vterm.State.{total_history_lines, Term, Parser, with_parser}
use fbterm.Vterm.Cursor
use fbterm.Vterm.Edit
use fbterm.Vterm.Modes
use fbterm.Vterm.Resize
use fbterm.Vterm.Sequences.{Action, Sequence, find_sequence}
use fbterm.Vterm.Sequences.Dispatch.{
  sets_mode, find_sequence-sets_mode, is_sound, find_sequence-is_sound, is_nonstd, is_stay,
  is_square,
}
use fbterm.Vterm.Input.Params.{update_pending-Kept}
use fbterm.Vterm.Scroll.{history_display, show_history}
use fbterm.Vterm.Draw.{update, show_cursor}
use fbterm.Vterm.Decode.{
  checked, not_overlong, Decoded, replacement, replacement, pending, char, decode, decode_first,
  decode_next,
}
use fbterm.Vterm.Input.{
  run_action, run_optional, enter_state, do_control_char, do_normal_char, is_shown, char_of_width,
  put_char, take_char, is_shown, wrap_line, place_char, take_decoded, take_rescanned, take_utf8,
  take_byte, take_bytes, begin_input, input,
}
use fbterm.Vterm.Input.Frame.{
  history_display-Kept, show_cursor-Kept, expose-Kept, Kept, Kept-refl, lf-Kept, next_line-Kept,
  index_up-Kept, scroll_region-Kept, update-Kept, put_char-Kept,
}

display_attr-insert_mode :
    (t : Term) (n : ℕ) (u : Term)
    → u.flags.insert_mode ≡ t.flags.insert_mode
    → (Modes.display_attr n u).flags.insert_mode ≡ t.flags.insert_mode
unfolding Modes.display_attr
display_attr-insert_mode t n u e = ground arith

set_display_attr-insert_mode :
    (t : Term) → (Modes.set_display_attr t).flags.insert_mode ≡ t.flags.insert_mode
unfolding Modes.set_display_attr
set_display_attr-insert_mode t =
    for_range-keeps (λ (u : Term). u.flags.insert_mode ≡ t.flags.insert_mode) Modes.display_attr
      (t.parser.npar + 1) 0 t (display_attr-insert_mode t) refl

insert_line-flags : (t : Term) → (Edit.insert_line t).flags ≡ t.flags
unfolding Edit.insert_line
insert_line-flags t = grind (arith, scroll_region-Kept)

delete_line-flags : (t : Term) → (Edit.delete_line t).flags ≡ t.flags
unfolding Edit.delete_line
delete_line-flags t = grind (arith, scroll_region-Kept)

clear_mode-insert_mode :
    (t : Term) → t.flags.insert_mode ≡ false → (Modes.enable_mode false t).flags.insert_mode ≡ false
unfolding Modes.enable_mode Modes.switch_mode Modes.inverse_mode
clear_mode-insert_mode t e = ground arith

reset-insert_mode : (t : Term) → (Resize.reset t).flags.insert_mode ≡ false
unfolding Resize.reset Resize.reset_fields new_mode_flag
reset-insert_mode t = ground arith

run_action-insert_mode :
    (a : Action) (t : Term)
    → sets_mode (some a) ≡ false
    → t.flags.insert_mode ≡ false
    → (run_action a t).flags.insert_mode ≡ false
unfolding run_action Modes.set_mode Modes.clear_mode Modes.clear_param Modes.next_param
    Modes.set_palette Modes.begin_set_palette Resize.reset Resize.reset_fields Cursor.ring_bell
    Cursor.index_down Modes.active_g0 Modes.active_g1 Modes.current_is_g0 Modes.current_is_g1
    Modes.respond_id Modes.keypad_numeric Modes.keypad_application Modes.set_q_mode
    Modes.param_digit Modes.set_cursor_type Modes.status_report Modes.set_led Modes.linux_specific
    Modes.fbterm_specific Modes.reset_palette Modes.clear_utf8 Modes.set_utf8 Modes.set_charset
    Cursor.bs Cursor.tab Cursor.cr Cursor.set_tab Cursor.save_cursor Cursor.restore_cursor
    Cursor.cursor_up Cursor.cursor_down Cursor.cursor_right Cursor.cursor_left Cursor.cursor_down_cr
    Cursor.cursor_up_cr Cursor.cursor_position_col Cursor.cursor_position Cursor.cursor_position_row
    Cursor.clear_tab Edit.insert_char Edit.delete_char Edit.erase_char Edit.erase_line
    Edit.erase_display Edit.screen_align Edit.set_margins
run_action-insert_mode Action.insert_line t h e = ground (arith, insert_line-flags t)
run_action-insert_mode Action.delete_line t h e = ground (arith, delete_line-flags t)
run_action-insert_mode Action.reset t h e = reset-insert_mode t
run_action-insert_mode Action.set_mode t h e = absurd (ground arith)
run_action-insert_mode Action.clear_mode t h e = clear_mode-insert_mode t e
run_action-insert_mode Action.set_display_attr t h e = set_display_attr-insert_mode t ∙ e
run_action-insert_mode Action.set_margins t h e = ground (arith, update_pending-Kept t)
run_action-insert_mode Action.lf t h e = ground (arith, lf-Kept t)
run_action-insert_mode Action.index_down t h e = ground (arith, lf-Kept t)
run_action-insert_mode Action.next_line t h e = ground (arith, next_line-Kept t)
run_action-insert_mode Action.index_up t h e = ground (arith, index_up-Kept t)
run_action-insert_mode _ t h e = ground arith

run_optional-insert_mode :
    (a : Option Action) (t : Term)
    → sets_mode a ≡ false
    → t.flags.insert_mode ≡ false
    → (run_optional a t).flags.insert_mode ≡ false
run_optional-insert_mode none t h e = e
run_optional-insert_mode (some a) t h e = run_action-insert_mode a t h e

enter_state-insert_mode :
    (next : EscapeState) (t : Term) → (enter_state next t).flags.insert_mode ≡ t.flags.insert_mode
unfolding enter_state
enter_state-insert_mode es_keep t = refl
enter_state-insert_mode _ t = refl

-- Insert mode stays off: the letter `h` alone could turn it on, at the end of a CSI sequence.
pub do_control_char-insert_mode :
    (t : Term)
    → (t.parser.esc_state ≡ es_square → t.parser.cur_char ≢ b'h')
    → t.flags.insert_mode ≡ false
    → (do_control_char t).flags.insert_mode ≡ false
unfolding do_control_char
do_control_char-insert_mode t h e =
    let seq = find_sequence t.parser.esc_state t.parser.cur_char in
    let quiet : sets_mode seq.action ≡ false = elim (Bool-cases (sets_mode seq.action)) [
      | inl y ↦
          let k = find_sequence-sets_mode t.parser.esc_state t.parser.cur_char y in
          absurd (h k.0 k.1)
      | inr n ↦ n
    ] in
    enter_state-insert_mode seq.next (run_optional seq.action t)
    ∙ run_optional-insert_mode seq.action t quiet e
