-- ===== src/Vterm/Sequences.antt =====
-- src/lib/vterm_states.cpp: the tables of control characters and escape sequences, and the maps that
-- `VTerm::init_state` builds from them.
pub mod Dispatch
use fbterm.Prelude.{
  ℕ, ◌+◌, ◌*◌, ◌&&◌, Option, none, some, List, [], ◌∷◌, ltb, ◌==◌, if◌then◌else◌, Bool, true, false,
  Store, put, get_or,
}
use fbterm.Prelude.Arrays.{fill}
use fbterm.Vterm.Types.{
  EscapeState, es_normal, es_esc, es_square, es_nonstd, es_percent, es_charset, es_hash, es_funckey,
  es_keep, escape_index,
}

-- The member functions that a sequence can name.
pub data Action : Type 0 where
  bell bs tab lf cr active_g0 active_g1 : Action
  clear_param current_is_g0 current_is_g1 reset index_down next_line set_tab index_up : Action
  respond_id save_cursor restore_cursor keypad_numeric keypad_application : Action
  set_q_mode param_digit next_param insert_char cursor_up cursor_down cursor_right : Action
  cursor_left cursor_down_cr cursor_up_cr cursor_position_col cursor_position : Action
  erase_display erase_line insert_line delete_line delete_char erase_char : Action
  set_cursor_type cursor_position_row clear_tab set_mode clear_mode set_display_attr : Action
  status_report set_led set_margins linux_specific fbterm_specific : Action
  set_palette begin_set_palette reset_palette clear_utf8 set_utf8 set_charset : Action
  screen_align : Action

-- `struct Sequence`. The code's high byte, `more`, is the number of codes behind `code` that share
-- the entry; `code` is 0xffff in the entry that ends a list.
pub record Sequence : Type 0 where
  pub code : ℕ
  pub more : ℕ
  pub action : Option Action
  pub next : EscapeState

abbrev quiet : ℕ → EscapeState → Sequence
quiet c next = record { code = c; more = 0; action = none; next = next }

abbrev does : ℕ → Action → EscapeState → Sequence
does c a next = record { code = c; more = 0; action = some a; next = next }

abbrev span : ℕ → ℕ → Action → EscapeState → Sequence
span c more a next = record { code = c; more = more; action = some a; next = next }

abbrev pub last : Sequence
last = quiet 0xffff es_normal

-- `VTerm::control_sequences`
unfoldable pub control_sequences : List Sequence
control_sequences =
    quiet 0 es_keep
    ∷ does 7 Action.bell es_keep
    ∷ does 8 Action.bs es_keep
    ∷ does 9 Action.tab es_keep
    ∷ does 0xA Action.lf es_keep
    ∷ does 0xB Action.lf es_keep
    ∷ does 0xC Action.lf es_keep
    ∷ does 0xD Action.cr es_keep
    ∷ does 0xE Action.active_g1 es_keep
    ∷ does 0xF Action.active_g0 es_keep
    ∷ quiet 0x18 es_normal
    ∷ quiet 0x1A es_normal
    ∷ quiet 0x1B es_esc
    ∷ quiet 0x7F es_keep
    ∷ quiet 0x9B es_square
    ∷ last
    ∷ []

-- `VTerm::escape_sequences`
unfoldable pub escape_sequences : List Sequence
escape_sequences =
    quiet 0 es_normal
    -- ESnormal
    ∷ last
    -- ESesc
    ∷ does b'[' Action.clear_param es_square
    ∷ does b']' Action.clear_param es_nonstd
    ∷ quiet b'%' es_percent
    ∷ quiet b'#' es_hash
    ∷ does b'(' Action.current_is_g0 es_charset
    ∷ does b')' Action.current_is_g1 es_charset
    ∷ does b'c' Action.reset es_normal
    ∷ does b'D' Action.index_down es_normal
    ∷ does b'E' Action.next_line es_normal
    ∷ does b'H' Action.set_tab es_normal
    ∷ does b'M' Action.index_up es_normal
    ∷ does b'Z' Action.respond_id es_normal
    ∷ does b'7' Action.save_cursor es_normal
    ∷ does b'8' Action.restore_cursor es_normal
    ∷ does b'>' Action.keypad_numeric es_normal
    ∷ does b'=' Action.keypad_application es_normal
    ∷ last
    -- ESsquare
    ∷ quiet b'[' es_funckey
    ∷ does b'?' Action.set_q_mode es_keep
    ∷ span b'0' 9 Action.param_digit es_keep
    ∷ does b';' Action.next_param es_keep
    ∷ does b'@' Action.insert_char es_normal
    ∷ does b'A' Action.cursor_up es_normal
    ∷ does b'B' Action.cursor_down es_normal
    ∷ does b'C' Action.cursor_right es_normal
    ∷ does b'D' Action.cursor_left es_normal
    ∷ does b'E' Action.cursor_down_cr es_normal
    ∷ does b'F' Action.cursor_up_cr es_normal
    ∷ does b'G' Action.cursor_position_col es_normal
    ∷ does b'H' Action.cursor_position es_normal
    ∷ does b'J' Action.erase_display es_normal
    ∷ does b'K' Action.erase_line es_normal
    ∷ does b'L' Action.insert_line es_normal
    ∷ does b'M' Action.delete_line es_normal
    ∷ does b'P' Action.delete_char es_normal
    ∷ does b'X' Action.erase_char es_normal
    ∷ does b'a' Action.cursor_right es_normal
    ∷ does b'c' Action.set_cursor_type es_normal
    ∷ does b'd' Action.cursor_position_row es_normal
    ∷ does b'e' Action.cursor_down es_normal
    ∷ does b'f' Action.cursor_position es_normal
    ∷ does b'g' Action.clear_tab es_normal
    ∷ does b'h' Action.set_mode es_normal
    ∷ does b'l' Action.clear_mode es_normal
    ∷ does b'm' Action.set_display_attr es_normal
    ∷ does b'n' Action.status_report es_normal
    ∷ does b'q' Action.set_led es_normal
    ∷ does b'r' Action.set_margins es_normal
    ∷ does b's' Action.save_cursor es_normal
    ∷ does b'u' Action.restore_cursor es_normal
    ∷ does b'`' Action.cursor_position_col es_normal
    ∷ does b']' Action.linux_specific es_normal
    ∷ does b'}' Action.fbterm_specific es_normal
    ∷ last
    -- ESnonstd
    ∷ span b'0' 9 Action.set_palette es_keep
    ∷ span b'A' 5 Action.set_palette es_keep
    ∷ span b'a' 5 Action.set_palette es_keep
    ∷ does b'P' Action.begin_set_palette es_keep
    ∷ does b'R' Action.reset_palette es_normal
    ∷ last
    -- ESpercent
    ∷ does b'@' Action.clear_utf8 es_normal
    ∷ does b'G' Action.set_utf8 es_normal
    ∷ does b'8' Action.set_utf8 es_normal
    ∷ last
    -- EScharset
    ∷ does b'0' Action.set_charset es_normal
    ∷ does b'B' Action.set_charset es_normal
    ∷ does b'U' Action.set_charset es_normal
    ∷ does b'K' Action.set_charset es_normal
    ∷ last
    -- EShash
    ∷ does b'8' Action.screen_align es_normal
    ∷ last
    -- ESfunckey
    ∷ last
    ∷ []

-- The first loop of `init_state`, from entry `i`, whose list is given.
unfoldable pub init_control : List Sequence → ℕ → Store ℕ → Store ℕ
init_control [] i m = m
init_control (s ∷ rest) i m =
    let later = init_control rest (i + 1) (put m s.code i) in if s.code == 0xffff then m else later

-- The second loop: entry `i` in the list of `state`. Row `state` of the map begins at 128 * state.
unfoldable pub init_escape : List Sequence → ℕ → ℕ → Store ℕ → Store ℕ
init_escape [] i state m = m
init_escape (s ∷ rest) i state m =
    let ends = s.code == 0xffff in
    let m' = if ends then m else fill (s.more + 1) (128 * state + s.code) i m in
    let state' = if ends then state + 1 else state in
    let later = init_escape rest (i + 1) state' m' in
    if ends && state' == escape_index es_keep then m else later

abbrev rest_of : List Sequence → List Sequence
rest_of [] = []
rest_of (s ∷ rest) = rest

-- `control_map` and `escape_map` after `init_state`.
unfoldable pub control_map : Store ℕ
unfolding init_control control_sequences
control_map = init_control (rest_of control_sequences) 1 (λ (i : ℕ). 0)

unfoldable pub escape_map : Store ℕ
unfolding init_escape escape_sequences
escape_map = init_escape (rest_of escape_sequences) 1 0 (λ (i : ℕ). 0)

-- The entry that `do_control_char` finds for `cur_char` in state `state`.
unfoldable pub find_sequence : EscapeState → ℕ → Sequence
find_sequence state cur_char =
    let index = if ltb cur_char 256 then control_map cur_char else 0 in
    if index == 0 && not_normal state && ltb 0 cur_char
    then get_or escape_sequences
        (if ltb cur_char 128 then escape_map (128 * escape_index state + cur_char) else 0) last
    else get_or control_sequences index last
  where
    not_normal : EscapeState → Bool
    not_normal es_normal = false
    not_normal _ = true
