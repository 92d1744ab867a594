-- ===== src/Vterm/Input/Params.antt =====
-- The parameters of control sequences: `npar` stays within the array `param`.
pub mod Reading
use fbterm.Prelude.{
  if_both, if_cases, u32, ◌/◌, ◌%◌, ◌*◌, ℕ, zero, suc, ◌+◌, ◌-◌, ◌≤◌, ◌<◌, ◌≡◌, refl, ◌∙◌, ℤ, pos,
  negsuc, Bool, true, false, not, ◌&&◌, ◌||◌, Option, none, some, List, [], ◌∷◌, ltb, leb, ◌==◌,
  if◌then◌else◌, inl, inr, ◌⊎◌, Bool-cases, arith,
}
use fbterm.Prelude.Loops.{for_range-keeps, for_range}
use fbterm.Charset.{translate_char}
use fbterm.Prelude.Results.{◌>>=◌, Returns, runs_on, returns, of_Returns, >>=-Returns, map-Returns}
use fbterm.Vterm.Types.{EscapeState, es_normal, es_square, es_nonstd, es_keep, is_normal}
use fbterm.Vterm.State.{Term, Parser, with_parser}
use fbterm.Vterm.Cursor
use fbterm.Vterm.Edit
use fbterm.Vterm.Modes
use fbterm.Vterm.Resize
use fbterm.Vterm.Sequences.{Action, Sequence, find_sequence}
use fbterm.Vterm.Sequences.Dispatch.{
  is_sound, find_sequence-is_sound, is_nonstd, is_stay, is_square,
}
use fbterm.Vterm.Decode.{Decoded, replacement, pending, char, decode, decode_first, decode_next}
use fbterm.Vterm.Input.{
  run_action, run_optional, enter_state, do_control_char, do_normal_char, is_shown, char_of_width,
  put_char, take_char, take_decoded, take_rescanned, take_utf8, take_byte, take_bytes, begin_input,
  input,
}
use fbterm.Vterm.Input.Frame.{
  Kept, Kept-refl, lf-Kept, next_line-Kept, index_up-Kept, scroll_region-Kept, update-Kept,
  put_char-Kept,
}

-- What an action may do to the parser.
abbrev Moves : Action → Parser → Parser → Type 0
Moves Action.clear_param p q = (q.npar ≡ 0) × (q.esc_state ≡ p.esc_state)
Moves Action.next_param p q =
    (q.npar ≤ p.npar + 1) × (p.npar < 16 → q.npar < 16) × (q.esc_state ≡ p.esc_state)
Moves Action.set_palette p q =
    (p.npar < 7 → q.npar < 8)
    × (((q.esc_state ≡ p.esc_state) × (p.npar < 7 → q.npar < 7)) ⊎ (q.esc_state ≡ es_normal))
Moves Action.begin_set_palette p q =
    (q.npar ≡ p.npar) × ((q.esc_state ≡ p.esc_state) ⊎ (q.esc_state ≡ es_normal))
Moves Action.reset p q = (q.npar ≡ p.npar) × (q.esc_state ≡ es_normal)
Moves _ p q = (q.npar ≡ p.npar) × (q.esc_state ≡ p.esc_state)

pub update_pending-Kept : (t : Term) → Kept t (Edit.update_pending t)
unfolding Edit.update_pending
update_pending-Kept t = grind (arith, update-Kept)

enable_mode-parser : (b : Bool) (t : Term) → (Modes.enable_mode b t).parser ≡ t.parser
unfolding Modes.enable_mode Modes.switch_mode Modes.inverse_mode
enable_mode-parser b t = ground arith

display_attr-parser :
    (t : Term) (n : ℕ) (u : Term) → u.parser ≡ t.parser → (Modes.display_attr n u).parser ≡ t.parser
unfolding Modes.display_attr
display_attr-parser t n u e = ground arith

set_display_attr-parser : (t : Term) → (Modes.set_display_attr t).parser ≡ t.parser
unfolding Modes.set_display_attr
set_display_attr-parser t =
    for_range-keeps (λ (u : Term). u.parser ≡ t.parser) Modes.display_attr (t.parser.npar + 1) 0 t
      (display_attr-parser t) refl

insert_line-parser : (t : Term) → (Edit.insert_line t).parser ≡ t.parser
unfolding Edit.insert_line
insert_line-parser t = grind (arith, scroll_region-Kept)

delete_line-parser : (t : Term) → (Edit.delete_line t).parser ≡ t.parser
unfolding Edit.delete_line
delete_line-parser t = grind (arith, scroll_region-Kept)

run_action-Moves :
    (a : Action) (t : Term)
    → Moves a t.parser (run_action a t).parser
      × ((run_action a t).parser.utf8_count ≤ t.parser.utf8_count)
unfolding run_action Modes.set_mode Modes.clear_mode Modes.clear_param Modes.next_param
    Modes.set_palette Modes.begin_set_palette Resize.reset Resize.reset_fields Cursor.ring_bell
    Cursor.index_down Modes.active_g0 Modes.active_g1 Modes.current_is_g0 Modes.current_is_g1
    Modes.respond_id Modes.keypad_numeric Modes.keypad_application Modes.set_q_mode
    Modes.param_digit Modes.set_cursor_type Modes.status_report Modes.set_led Modes.linux_specific
    Modes.fbterm_specific Modes.reset_palette Modes.clear_utf8 Modes.set_utf8 Modes.set_charset
    Cursor.bs Cursor.tab Cursor.cr Cursor.set_tab Cursor.save_cursor Cursor.restore_cursor
    Cursor.cursor_up Cursor.cursor_down Cursor.cursor_right Cursor.cursor_left Cursor.cursor_down_cr
    Cursor.cursor_up_cr Cursor.cursor_position_col Cursor.cursor_position Cursor.cursor_position_row
    Cursor.clear_tab Edit.insert_char Edit.delete_char Edit.erase_char Edit.erase_line
    Edit.erase_display Edit.screen_align Edit.set_margins
run_action-Moves Action.insert_line t = ground (arith, insert_line-parser t)
run_action-Moves Action.delete_line t = ground (arith, delete_line-parser t)
run_action-Moves Action.set_mode t = ground (arith, enable_mode-parser true t)
run_action-Moves Action.clear_mode t = ground (arith, enable_mode-parser false t)
run_action-Moves Action.set_display_attr t = ground (arith, set_display_attr-parser t)
run_action-Moves Action.set_margins t = ground (arith, update_pending-Kept t)
run_action-Moves Action.lf t = ground (arith, lf-Kept t)
run_action-Moves Action.index_down t = ground (arith, lf-Kept t)
run_action-Moves Action.next_line t = ground (arith, next_line-Kept t)
run_action-Moves Action.index_up t = ground (arith, index_up-Kept t)
run_action-Moves _ t = ground arith

-- `npar` is an index of `param`, in the three uses that the program makes of it: as the number of a
-- parameter, as that of a palette digit, and as the count of continuation bytes in UTF-8 decoding.
pub record InRange (t : Term) : Type 0 where
  pub param_in : t.parser.npar < 16
  pub palette_in : t.parser.esc_state ≡ es_nonstd → t.parser.npar < 7
  pub bytes_in : t.parser.npar + t.parser.utf8_count ≤ 5 ⊎ (t.parser.utf8_count ≡ 0)
  pub bytes_normal : 0 < t.parser.utf8_count → is_normal t.parser.esc_state ≡ true
  pub bytes_utf8 : 0 < t.parser.utf8_count → t.parser.utf8 ≡ true
  pub bytes_shown : 0 < t.parser.utf8_count → t.flags.display_ctrl ≡ false

-- The state behind a sequence: `next`, or the old one at ESkeep.
abbrev entered : EscapeState → EscapeState → EscapeState
entered es_keep e = e
entered next e = next

enter_state-parser :
    (next : EscapeState) (t : Term)
    → (enter_state next t).parser
      ≡ record (t.parser) { esc_state = entered next t.parser.esc_state }
unfolding enter_state
enter_state-parser es_keep t = refl
enter_state-parser _ t = refl

sound_step :
    (a : Action) (next : EscapeState) (p q : Parser)
    → is_sound p.esc_state (record { code = 0; more = 0; action = some a; next = next }) ≡ true
    → p.npar < 16
    → (p.esc_state ≡ es_nonstd → p.npar < 7)
    → Moves a p q
    → (q.npar < 16) × (entered next q.esc_state ≡ es_nonstd → q.npar < 7)
unfolding is_sound
sound_step Action.clear_param next p q s n v m = ground arith
sound_step a es_keep p q s n v m = ground arith
sound_step a next p q s n v m = ground arith

-- Between two characters no bytes are awaited.
pub quiet-InRange :
    (u : Term)
    → u.parser.npar < 16
    → (u.parser.esc_state ≡ es_nonstd → u.parser.npar < 7)
    → u.parser.utf8_count ≡ 0
    → InRange u
quiet-InRange u n v z = record {
  param_in = n;
  palette_in = v;
  bytes_in = inr z;
  bytes_normal = λ h. absurd (omega arith);
  bytes_utf8 = λ h. absurd (omega arith);
  bytes_shown = λ h. absurd (omega arith);
}

entered-InRange :
    (next : EscapeState) (u : Term)
    → u.parser.npar < 16
    → (entered next u.parser.esc_state ≡ es_nonstd → u.parser.npar < 7)
    → u.parser.utf8_count ≡ 0
    → InRange (enter_state next u)
unfolding enter_state
entered-InRange es_keep u n v z = quiet-InRange u n v z
entered-InRange next u n v z =
    quiet-InRange (with_parser u (record (u.parser) { esc_state = next })) n v z

run_sequence-InRange :
    (state : EscapeState) (seq : Sequence) (a : Option Action) (t : Term)
    → t.parser.esc_state ≡ state
    → InRange t
    → t.parser.utf8_count ≡ 0
    → is_sound state (record seq { action = a }) ≡ true
    → InRange (enter_state seq.next (run_optional a t))
unfolding is_sound
run_sequence-InRange state seq none t e r z s =
    entered-InRange seq.next t r.param_in (ground (arith, r.palette_in)) z
run_sequence-InRange state seq (some a) t e r z s =
    let m = run_action-Moves a t in
    let u = run_action a t in
    let k = sound_step a seq.next t.parser u.parser (ground arith) r.param_in r.palette_in m.0 in
    entered-InRange seq.next u k.0 k.1 (omega (arith, m.1))

pub do_control_char-InRange :
    (t : Term) → InRange t → t.parser.utf8_count ≡ 0 → InRange (do_control_char t)
unfolding do_control_char
do_control_char-InRange t r z =
    let seq = find_sequence t.parser.esc_state t.parser.cur_char in
    run_sequence-InRange t.parser.esc_state seq seq.action t refl r z
      (find_sequence-is_sound t.parser.esc_state t.parser.cur_char)
