-- ===== src/Vterm/Fits/Columns/Actions.antt =====
-- No action changes the number of columns.
use fbterm.Prelude.{ℕ, ◌+◌, ◌≡◌, refl, ◌∙◌, Bool, true, false, Option, none, some, arith}
use fbterm.Prelude.Loops.{for_range-keeps}
use fbterm.Vterm.Types.{Cell, EscapeState, es_keep}
use fbterm.Vterm.State.{Term, Screen}
use fbterm.Vterm.Cursor
use fbterm.Vterm.Edit
use fbterm.Vterm.Modes
use fbterm.Vterm.Resize
use fbterm.Vterm.Input.{run_action, run_optional, enter_state, do_control_char}
use fbterm.Vterm.Sequences.{Action, find_sequence}
use fbterm.Vterm.Fits.Columns.{
  changed_line-width, move_cursor-width, clear_area-width, shift_text-width, update-width,
  scroll_region-width,
}

lf-width : (t : Term) → (Cursor.lf t).screen.width ≡ t.screen.width
unfolding Cursor.lf Cursor.cr
lf-width t = grind (arith, move_cursor-width, scroll_region-width)

pub next_line-width : (t : Term) → (Cursor.next_line t).screen.width ≡ t.screen.width
unfolding Cursor.next_line Cursor.cr
next_line-width t = grind (arith, move_cursor-width, lf-width)

align_row-width : (c : Cell) (y : ℕ) (s : Screen) → (Edit.align_row c y s).width ≡ s.width
unfolding Edit.align_row
align_row-width c y s = grind (arith, changed_line-width)

screen_align-width : (t : Term) → (Edit.screen_align t).screen.width ≡ t.screen.width
unfolding Edit.screen_align
screen_align-width t =
    for_range-keeps (λ (s : Screen). s.width ≡ t.screen.width) _ t.screen.height 0 t.screen
      (λ k s e. align_row-width _ k s ∙ e) refl

set_margins-width : (t : Term) → (Edit.set_margins t).screen.width ≡ t.screen.width
unfolding Edit.set_margins Edit.update_pending Edit.enter_margins
set_margins-width t = grind (arith, update-width, move_cursor-width)

inverse_mode-width : (b : Bool) (t : Term) → (Modes.inverse_mode b t).screen.width ≡ t.screen.width
unfolding Modes.inverse_mode
inverse_mode-width b t =
    for_range-keeps (λ (s : Screen). s.width ≡ t.screen.width) _ t.screen.height 0 t.screen
      (λ k s e. changed_line-width k 0 _ s ∙ e) refl

enable_mode-width : (b : Bool) (t : Term) → (Modes.enable_mode b t).screen.width ≡ t.screen.width
unfolding Modes.enable_mode Modes.switch_mode
enable_mode-width b t = grind (arith, inverse_mode-width)

display_attr-width : (n : ℕ) (t : Term) → (Modes.display_attr n t).screen.width ≡ t.screen.width
unfolding Modes.display_attr
display_attr-width n t = ground arith

reset-width : (t : Term) → (Resize.reset t).screen.width ≡ t.screen.width
unfolding Resize.reset Resize.reset_fields
reset-width t = grind (arith, clear_area-width)

run_action-width : (a : Action) (t : Term) → (run_action a t).screen.width ≡ t.screen.width
unfolding run_action Modes.set_mode Modes.clear_mode Modes.set_display_attr Modes.active_g0
    Modes.active_g1 Modes.clear_param Modes.current_is_g0 Modes.current_is_g1 Modes.respond_id
    Modes.keypad_numeric Modes.keypad_application Modes.set_q_mode Modes.param_digit
    Modes.next_param Modes.set_cursor_type Modes.status_report Modes.set_led Modes.linux_specific
    Modes.fbterm_specific Modes.set_palette Modes.begin_set_palette Modes.reset_palette
    Modes.clear_utf8 Modes.set_utf8 Modes.set_charset Cursor.bs Cursor.tab Cursor.cr Cursor.set_tab
    Cursor.save_cursor Cursor.restore_cursor Cursor.cursor_up Cursor.cursor_down Cursor.cursor_right
    Cursor.cursor_left Cursor.cursor_down_cr Cursor.cursor_up_cr Cursor.cursor_position_col
    Cursor.cursor_position Cursor.cursor_position_row Cursor.clear_tab Cursor.ring_bell
    Cursor.index_down Cursor.index_up Edit.insert_line Edit.delete_line Edit.insert_char
    Edit.delete_char Edit.erase_char Edit.erase_line Edit.erase_display
run_action-width Action.lf t = lf-width t
run_action-width Action.index_down t = lf-width t
run_action-width Action.next_line t = next_line-width t
run_action-width Action.index_up t = grind (arith, move_cursor-width, scroll_region-width)
run_action-width Action.insert_line t = grind (arith, scroll_region-width, clear_area-width)
run_action-width Action.delete_line t = grind (arith, scroll_region-width, clear_area-width)
run_action-width Action.insert_char t = grind (arith, clear_area-width, shift_text-width)
run_action-width Action.delete_char t = grind (arith, clear_area-width, shift_text-width)
run_action-width Action.erase_char t = grind (arith, clear_area-width)
run_action-width Action.erase_line t = grind (arith, clear_area-width)
run_action-width Action.erase_display t = grind (arith, clear_area-width)
run_action-width Action.reset t = reset-width t
run_action-width Action.set_mode t = enable_mode-width true t
run_action-width Action.clear_mode t = enable_mode-width false t
run_action-width Action.set_display_attr t =
    for_range-keeps (λ (u : Term). u.screen.width ≡ t.screen.width) Modes.display_attr
      (t.parser.npar + 1) 0 t (λ k u e. display_attr-width k u ∙ e) refl
run_action-width Action.set_margins t = set_margins-width t
run_action-width Action.screen_align t = screen_align-width t
run_action-width _ t = grind (arith, move_cursor-width)

run_optional-width :
    (a : Option Action) (t : Term) → (run_optional a t).screen.width ≡ t.screen.width
run_optional-width none t = refl
run_optional-width (some a) t = run_action-width a t

enter_state-width : (e : EscapeState) (t : Term) → (enter_state e t).screen.width ≡ t.screen.width
unfolding enter_state
enter_state-width es_keep t = refl
enter_state-width _ t = refl

pub do_control_char-width : (t : Term) → (do_control_char t).screen.width ≡ t.screen.width
unfolding do_control_char
do_control_char-width t =
    let seq = find_sequence t.parser.esc_state t.parser.cur_char in
    enter_state-width seq.next _ ∙ run_optional-width seq.action t
