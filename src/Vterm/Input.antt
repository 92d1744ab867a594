-- ===== src/Vterm/Input.antt =====
-- src/lib/vterm.cpp: `do_normal_char`, `do_control_char` and `input`.
pub mod Insert
pub mod Frame
pub mod Params
pub mod Finish
use fbterm.Prelude.{
  ℕ, zero, suc, ◌+◌, ◌-◌, ◌*◌, ◌/◌, ◌%◌, ◌^◌, ℤ, pos, negsuc, Bool, true, false, not, ◌&&◌, ◌||◌,
  Option, none, some, List, [], ◌∷◌, ltb, leb, ◌==◌, if◌then◌else◌, u16, sub16, Store, put,
}
use fbterm.Prelude.Results.{◌>>=◌}
use fbterm.Charset.{translate_char}
use fbterm.Width.{char_width}
use fbterm.Vterm.Types.{
  CharAttr, Cell, CharType, single, double_left, double_right, ModeType, EscapeState, is_normal,
  es_keep, history_changed,
}
use fbterm.Vterm.State.{
  Term, Screen, emit, with_parser, with_screen, total_history_lines, erased, normal_char_attr, mode,
}
use fbterm.Vterm.Area.{changed_line}
use fbterm.Vterm.Draw.{update, show_cursor}
use fbterm.Vterm.Scroll.{history_display}
use fbterm.Vterm.Sequences.{Action, find_sequence}
use fbterm.Vterm.Decode.{Decoded, pending, char, decode}
use fbterm.Vterm.Cursor
use fbterm.Vterm.Edit
use fbterm.Vterm.Modes
use fbterm.Vterm.Resize

-- `for (u16 i = ...; i >= cursor_x; i--)` of insert mode on at most `fuel` rounds; the counter wraps
-- below 0. `none`: the loop goes on beyond these rounds.
unfoldable pub insert_loop : ℕ → ℕ → ℕ → ℕ → ℕ → Store Cell → Option (Store Cell)
insert_loop zero i cursor_x yp step cells = none
insert_loop (suc fuel) i cursor_x yp step cells =
    let rest =
      insert_loop fuel (sub16 i 1) cursor_x yp step (put cells (yp + i + step) (cells (yp + i))) in
    if ltb i cursor_x then some cells else rest

-- A u16 takes 65536 values: a loop that is not over after as many rounds does not end.
abbrev pub insert_rounds : ℕ
insert_rounds = 65537

-- The insert mode part of `do_normal_char`, for a character `step` columns wide.
unfoldable pub make_room : ℕ → Screen → Option Screen
make_room step s = do
  let yp = s.linenumbers s.cursor_y * s.max_width
  cells ← insert_loop insert_rounds (sub16 s.width (step + 1)) s.cursor_x yp step s.cells
  some (record (changed_line s.cursor_y s.cursor_x (sub16 s.width 1) s) { cells = cells })

-- The end of `do_normal_char`: the character is written, and the cursor moves on.
unfoldable pub write_char : ℕ → CharAttr → Bool → Screen → Screen
write_char c attr dw s =
    let at = s.linenumbers s.cursor_y * s.max_width + s.cursor_x in
    let here : CharType → Cell = λ k. record { code = c; attr = record attr { type = k } } in
    if dw
    then record s {
      cells = put (put s.cells at (here double_left)) (at + 1) (here double_right);
      cursor_x = u16 (s.cursor_x + 2);
    }
    else record s { cells = put s.cells at (here single); cursor_x = u16 (s.cursor_x + 1) }

-- The writing part of `do_normal_char`, at a cursor that has room.
unfoldable pub place_char : ℕ → Bool → Term → Option Term
place_char c dw t = do
  let s = t.screen
  let step = if dw then 2 else 1
  u ←
      (if t.flags.insert_mode
        then make_room step s
        else some (changed_line s.cursor_y s.cursor_x (u16 (s.cursor_x + step - 1)) s))
  some (with_screen t (write_char c (normal_char_attr t.pen) dw u))

-- The part of `do_normal_char` that wraps the line. `none`: the character is dropped.
unfoldable pub wrap_line : Bool → Term → Option Term
wrap_line dw t =
    let s = t.screen in
    let at = s.linenumbers s.cursor_y * s.max_width + s.cursor_x in
    let padded =
      if dw && s.cursor_x + 1 == s.width
      then with_screen t (record s { cells = put s.cells at (erased t) })
      else t in
    if leb s.width (if dw then s.cursor_x + 1 else s.cursor_x)
    then if t.flags.auto_wrap
      then some (Cursor.next_line padded)
      else if dw
      then none
      else some (with_screen t (record s { cursor_x = sub16 s.width 1 }))
    else some t

-- A character `c` of one or two columns, wrapped first where the line is full.
unfoldable pub put_char : ℕ → Bool → Term → Option Term
put_char c dw t = elim (wrap_line dw t) [ none ↦ some t | some u ↦ place_char c dw u ]

-- A character by its width: what takes no column is ignored.
unfoldable pub char_of_width : ℤ → ℕ → Term → Option Term
char_of_width (pos w) c t = if w == 0 then some t else put_char c (w == 2) t
char_of_width (negsuc w) c t = some t

-- `VTerm::do_normal_char`. `none`: it does not return.
unfoldable pub do_normal_char : Term → Option Term
do_normal_char t =
    let c = if ltb 0xffff t.parser.cur_char then 0xfffd else t.parser.cur_char in
    char_of_width (char_width t.settings.ambiguous_wide c) c
      (with_parser t (record (t.parser) { cur_char = c }))

-- The member functions by their names in the tables.
unfoldable pub run_action : Action → Term → Term
run_action Action.bell = Cursor.ring_bell
run_action Action.bs = Cursor.bs
run_action Action.tab = Cursor.tab
run_action Action.lf = Cursor.lf
run_action Action.cr = Cursor.cr
run_action Action.active_g0 = Modes.active_g0
run_action Action.active_g1 = Modes.active_g1
run_action Action.clear_param = Modes.clear_param
run_action Action.current_is_g0 = Modes.current_is_g0
run_action Action.current_is_g1 = Modes.current_is_g1
run_action Action.reset = Resize.reset
run_action Action.index_down = Cursor.index_down
run_action Action.next_line = Cursor.next_line
run_action Action.set_tab = Cursor.set_tab
run_action Action.index_up = Cursor.index_up
run_action Action.respond_id = Modes.respond_id
run_action Action.save_cursor = Cursor.save_cursor
run_action Action.restore_cursor = Cursor.restore_cursor
run_action Action.keypad_numeric = Modes.keypad_numeric
run_action Action.keypad_application = Modes.keypad_application
run_action Action.set_q_mode = Modes.set_q_mode
run_action Action.param_digit = Modes.param_digit
run_action Action.next_param = Modes.next_param
run_action Action.insert_char = Edit.insert_char
run_action Action.cursor_up = Cursor.cursor_up
run_action Action.cursor_down = Cursor.cursor_down
run_action Action.cursor_right = Cursor.cursor_right
run_action Action.cursor_left = Cursor.cursor_left
run_action Action.cursor_down_cr = Cursor.cursor_down_cr
run_action Action.cursor_up_cr = Cursor.cursor_up_cr
run_action Action.cursor_position_col = Cursor.cursor_position_col
run_action Action.cursor_position = Cursor.cursor_position
run_action Action.erase_display = Edit.erase_display
run_action Action.erase_line = Edit.erase_line
run_action Action.insert_line = Edit.insert_line
run_action Action.delete_line = Edit.delete_line
run_action Action.delete_char = Edit.delete_char
run_action Action.erase_char = Edit.erase_char
run_action Action.set_cursor_type = Modes.set_cursor_type
run_action Action.cursor_position_row = Cursor.cursor_position_row
run_action Action.clear_tab = Cursor.clear_tab
run_action Action.set_mode = Modes.set_mode
run_action Action.clear_mode = Modes.clear_mode
run_action Action.set_display_attr = Modes.set_display_attr
run_action Action.status_report = Modes.status_report
run_action Action.set_led = Modes.set_led
run_action Action.set_margins = Edit.set_margins
run_action Action.linux_specific = Modes.linux_specific
run_action Action.fbterm_specific = Modes.fbterm_specific
run_action Action.set_palette = Modes.set_palette
run_action Action.begin_set_palette = Modes.begin_set_palette
run_action Action.reset_palette = Modes.reset_palette
run_action Action.clear_utf8 = Modes.clear_utf8
run_action Action.set_utf8 = Modes.set_utf8
run_action Action.set_charset = Modes.set_charset
run_action Action.screen_align = Edit.screen_align

abbrev pub run_optional : Option Action → Term → Term
run_optional none t = t
run_optional (some a) t = run_action a t

-- `if (seq->next != ESkeep) esc_state = seq->next;`
unfoldable pub enter_state : EscapeState → Term → Term
enter_state es_keep t = t
enter_state next t = with_parser t (record (t.parser) { esc_state = next })

-- `VTerm::do_control_char`
unfoldable pub do_control_char : Term → Term
do_control_char t =
    let seq = find_sequence t.parser.esc_state t.parser.cur_char in
    enter_state seq.next (run_optional seq.action t)

-- `CTRL_ACTION` and `CTRL_ALWAYS`, and a bit of them.
abbrev pub ctrl_action : ℕ
ctrl_action = 0x0d00ff81

abbrev pub ctrl_always : ℕ
ctrl_always = 0x0800f501

abbrev pub bit_of : ℕ → ℕ → Bool
bit_of mask c = (mask / 2 ^ c) % 2 == 1

-- The variable `ok`: whether the character is shown.
unfoldable pub is_shown : Term → ℕ → ℕ → Bool
is_shown t c tc =
    let f = t.flags in
    not (tc == 0)
    && (leb 32 c
        || not (
            if f.display_ctrl then bit_of ctrl_always c else t.parser.utf8 || bit_of ctrl_action c))
    && (not (c == 127) || f.display_ctrl)
    && not (c == 128 + 27)

-- The rest of a round of the loop of `input`, for the character `c` and its translation `tc`.
unfoldable pub take_char : ℕ → ℕ → Term → Option Term
take_char c tc t =
    let u = with_parser t (record (t.parser) { cur_char = tc }) in
    if is_normal t.parser.esc_state && is_shown t c tc
    then do_normal_char u
    else some (do_control_char u)

-- The byte that broke off a sequence, decoded once more: no sequence is open now.
unfoldable pub take_rescanned : Decoded → Term → Option Term
take_rescanned (pending p) t = some (with_parser t p)
take_rescanned (char p c rescan) t = take_char c c (with_parser t p)

-- What the decoder made of the byte `b`.
unfoldable pub take_decoded : ℕ → Decoded → Term → Option Term
take_decoded b (pending p) t = some (with_parser t p)
take_decoded b (char p c false) t = take_char c c (with_parser t p)
take_decoded b (char p c true) t = do
  u ← take_char c c (with_parser t p)
  take_rescanned (decode u.parser b) u

-- A byte with UTF-8 decoding. A character that broke off a sequence is followed by the byte itself.
unfoldable pub take_utf8 : ℕ → Term → Option Term
take_utf8 b t = take_decoded b (decode t.parser b) t

-- One round of the loop of `input`.
unfoldable pub take_byte : ℕ → Term → Option Term
take_byte b t =
    let meta = if t.flags.toggle_meta then (if ltb b 128 then b + 128 else b) else b in
    if not (is_normal t.parser.esc_state)
    then take_char b b t
    else if t.parser.utf8 && (not t.flags.display_ctrl || ltb b 0x20)
    then take_utf8 b t
    else take_char b (translate_char t.charsets.charset meta) t

-- The loop of `input`.
unfoldable pub take_bytes : List ℕ → Term → Option Term
take_bytes [] t = some t
take_bytes (b ∷ bs) t = do u ← take_byte b t; take_bytes bs u

-- What `input` does before its loop: the history is left, and the cursor's place is redrawn.
unfoldable pub begin_input : Term → Term
begin_input t =
    let total = total_history_lines t in
    let shown = history_display true (pos total) t in
    let back =
      if t.history.visual_start_line == total
      then t
      else emit (history_changed shown.history.visual_start_line (total_history_lines shown))
          shown in
    let s = back.screen in
    if mode back ModeType.cursor_visible == 0
    then back
    else with_screen back (changed_line s.cursor_y s.cursor_x s.cursor_x s)

-- `VTerm::input`. `none`: it does not return.
unfoldable pub input : List ℕ → Term → Option Term
input bytes t =
    if t.screen.width == 0
    then some t
    else (take_bytes bytes (begin_input t) >>= λ u. some (show_cursor (update u)))
