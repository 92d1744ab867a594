-- ===== src/Vterm/Fits/Dispatch.antt =====
-- The actions on modes and attributes, and all actions together.
use fbterm.Prelude.{ℕ, ◌+◌, Bool, true, false, Option, none, some, arith, sub16}
use fbterm.Prelude.Loops.{for_range-keeps}
use fbterm.Vterm.Types.{EscapeState, es_keep}
use fbterm.Vterm.State.{Term}
use fbterm.Vterm.Modes
use fbterm.Vterm.Input.{run_action, run_optional, enter_state, do_control_char}
use fbterm.Vterm.Sequences.{Action, find_sequence}
use fbterm.Vterm.Fits.{Fits}
use fbterm.Vterm.Fits.Areas.{changed_line-Fits}
use fbterm.Vterm.Fits.Actions

inverse_mode-Fits : (b : Bool) (t : Term) → Fits t.screen → Fits (Modes.inverse_mode b t).screen
unfolding Modes.inverse_mode
inverse_mode-Fits b t f =
    for_range-keeps Fits _ t.screen.height 0 t.screen
      (λ k s. changed_line-Fits k 0 (sub16 s.width 1) s) f

enable_mode-Fits : (b : Bool) (t : Term) → Fits t.screen → Fits (Modes.enable_mode b t).screen
unfolding Modes.enable_mode Modes.switch_mode
enable_mode-Fits b t f = grind (arith, inverse_mode-Fits)

display_attr-Fits : (n : ℕ) (t : Term) → Fits t.screen → Fits (Modes.display_attr n t).screen
unfolding Modes.display_attr
display_attr-Fits n t f = ground arith

-- On a terminal whose geometry is in order, every action of the tables leaves it in order.
pub run_action-Fits : (a : Action) (t : Term) → Fits t.screen → Fits (run_action a t).screen
unfolding run_action Modes.set_mode Modes.clear_mode Modes.set_display_attr Modes.active_g0
    Modes.active_g1 Modes.clear_param Modes.current_is_g0 Modes.current_is_g1 Modes.respond_id
    Modes.keypad_numeric Modes.keypad_application Modes.set_q_mode Modes.param_digit
    Modes.next_param Modes.set_cursor_type Modes.status_report Modes.set_led Modes.linux_specific
    Modes.fbterm_specific Modes.set_palette Modes.begin_set_palette Modes.reset_palette
    Modes.clear_utf8 Modes.set_utf8 Modes.set_charset
run_action-Fits Action.bs t f = Actions.bs-Fits t f
run_action-Fits Action.tab t f = Actions.tab-Fits t f
run_action-Fits Action.cr t f = Actions.cr-Fits t f
run_action-Fits Action.reset t f = Actions.reset-Fits t f
run_action-Fits Action.lf t f = Actions.lf-Fits t f
run_action-Fits Action.next_line t f = Actions.next_line-Fits t f
run_action-Fits Action.set_tab t f = Actions.set_tab-Fits t f
run_action-Fits Action.index_up t f = Actions.index_up-Fits t f
run_action-Fits Action.save_cursor t f = Actions.save_cursor-Fits t f
run_action-Fits Action.restore_cursor t f = Actions.restore_cursor-Fits t f
run_action-Fits Action.insert_char t f = Actions.insert_char-Fits t f
run_action-Fits Action.cursor_up t f = Actions.cursor_up-Fits t f
run_action-Fits Action.cursor_down t f = Actions.cursor_down-Fits t f
run_action-Fits Action.cursor_right t f = Actions.cursor_right-Fits t f
run_action-Fits Action.cursor_left t f = Actions.cursor_left-Fits t f
run_action-Fits Action.cursor_down_cr t f = Actions.cursor_down_cr-Fits t f
run_action-Fits Action.cursor_up_cr t f = Actions.cursor_up_cr-Fits t f
run_action-Fits Action.cursor_position_col t f = Actions.cursor_position_col-Fits t f
run_action-Fits Action.cursor_position t f = Actions.cursor_position-Fits t f
run_action-Fits Action.erase_display t f = Actions.erase_display-Fits t f
run_action-Fits Action.erase_line t f = Actions.erase_line-Fits t f
run_action-Fits Action.insert_line t f = Actions.insert_line-Fits t f
run_action-Fits Action.delete_line t f = Actions.delete_line-Fits t f
run_action-Fits Action.delete_char t f = Actions.delete_char-Fits t f
run_action-Fits Action.erase_char t f = Actions.erase_char-Fits t f
run_action-Fits Action.cursor_position_row t f = Actions.cursor_position_row-Fits t f
run_action-Fits Action.clear_tab t f = Actions.clear_tab-Fits t f
run_action-Fits Action.set_margins t f = Actions.set_margins-Fits t f
run_action-Fits Action.screen_align t f = Actions.screen_align-Fits t f
run_action-Fits Action.bell t f = Actions.ring_bell-Fits t f
run_action-Fits Action.index_down t f = Actions.index_down-Fits t f
run_action-Fits Action.set_mode t f = enable_mode-Fits true t f
run_action-Fits Action.clear_mode t f = enable_mode-Fits false t f
run_action-Fits Action.set_display_attr t f =
    for_range-keeps (λ (u : Term). Fits u.screen) Modes.display_attr (t.parser.npar + 1) 0 t
      display_attr-Fits f
run_action-Fits _ t f = ground arith

pub run_optional-Fits :
    (a : Option Action) (t : Term) → Fits t.screen → Fits (run_optional a t).screen
run_optional-Fits none t f = f
run_optional-Fits (some a) t f = run_action-Fits a t f

enter_state-Fits : (e : EscapeState) (t : Term) → Fits t.screen → Fits (enter_state e t).screen
unfolding enter_state
enter_state-Fits es_keep t f = f
enter_state-Fits _ t f = f

pub do_control_char-Fits : (t : Term) → Fits t.screen → Fits (do_control_char t).screen
unfolding do_control_char
do_control_char-Fits t f =
    let seq = find_sequence t.parser.esc_state t.parser.cur_char in
    enter_state-Fits seq.next _ (run_optional-Fits seq.action t f)
