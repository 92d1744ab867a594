-- ===== src/Vterm/State.antt =====
-- The object `VTerm`: its fields in groups, and the functions that only read it.
use fbterm.Prelude.{
  ℕ, ◌+◌, ◌-◌, ◌*◌, ◌%◌, ℤ, Bool, false, ◌&&◌, Option, none, some, List, ◌∷◌, ltb, leb, ◌==◌,
  if◌then◌else◌, u16, Store,
}
use fbterm.Vterm.Types.{
  CharAttr, Cell, ModeFlag, ModeType, CharsetMap, EscapeState, Event, mouse_report_value,
}

-- What does not change after the constructor: the static members, and the answers of the virtual
-- `moveChars`, which may depend on every call made so far (newest first, its own included).
pub record Settings : Type 0 where
  pub history_lines : ℕ
  pub default_char_attr : CharAttr
  pub ambiguous_wide : Bool
  pub moves : List Event → Bool

-- The parser of control sequences and of UTF-8. `param` has 16 entries.
pub record Parser : Type 0 where
  pub esc_state : EscapeState
  pub utf8 : Bool
  pub utf8_count : ℕ
  pub cur_char : ℕ
  pub npar : ℕ
  pub param : Store ℕ
  pub q_mode : Bool
  pub palette_mode : Bool

pub record Charsets : Type 0 where
  pub g0_is_current : Bool
  pub g0_is_active : Bool
  pub s_g0_is_active : Bool
  pub charset : CharsetMap
  pub g0_charset : CharsetMap
  pub g1_charset : CharsetMap
  pub s_g0_charset : CharsetMap
  pub s_g1_charset : CharsetMap

-- `cur_underline_color` and `cur_halfbright_color` are -1 or a colour: `none` stands for -1.
pub record Pen : Type 0 where
  pub char_attr : CharAttr
  pub s_char_attr : CharAttr
  pub cur_fcolor : ℕ
  pub cur_bcolor : ℕ
  pub cur_underline_color : Option ℕ
  pub cur_halfbright_color : Option ℕ

-- The arrays and the geometry. `cells` holds `text` and `attrs`, `max_width` to a line: first
-- `history_lines` lines of history, then `max_height` of the screen. `tab_stops` is read by bits.
-- `allocated` says that `text` is not null.
pub record Screen : Type 0 where
  pub allocated : Bool
  pub cells : Store Cell
  pub tab_stops : Store Bool
  pub linenumbers : Store ℕ
  pub dirty_startx : Store ℕ
  pub dirty_endx : Store ℕ
  pub width : ℕ
  pub height : ℕ
  pub max_width : ℕ
  pub max_height : ℕ
  pub scroll_top : ℕ
  pub scroll_bot : ℕ
  pub pending_scroll : ℤ
  pub cursor_x : ℕ
  pub cursor_y : ℕ
  pub s_cursor_x : ℕ
  pub s_cursor_y : ℕ

pub record History : Type 0 where
  pub history_full : Bool
  pub history_save_line : ℕ
  pub visual_start_line : ℕ

pub record Term : Type 0 where
  pub settings : Settings
  pub parser : Parser
  pub charsets : Charsets
  pub flags : ModeFlag
  pub pen : Pen
  pub screen : Screen
  pub history : History
  -- the virtual calls made, newest first
  pub trace : List Event

abbrev pub emit : Event → Term → Term
emit e t = record t { trace = e ∷ t.trace }

abbrev pub with_parser : Term → Parser → Term
with_parser t p = record t { parser = p }

abbrev pub with_charsets : Term → Charsets → Term
with_charsets t c = record t { charsets = c }

abbrev pub with_flags : Term → ModeFlag → Term
with_flags t f = record t { flags = f }

abbrev pub with_pen : Term → Pen → Term
with_pen t p = record t { pen = p }

abbrev pub with_screen : Term → Screen → Term
with_screen t s = record t { screen = s }

abbrev pub with_history : Term → History → Term
with_history t h = record t { history = h }

-- `VTerm::normal_char_attr`
unfoldable pub normal_char_attr : Pen → CharAttr
normal_char_attr p =
    halfbright p.cur_halfbright_color (underlined p.cur_underline_color p.char_attr)
  where
    underlined : Option ℕ → CharAttr → CharAttr
    underlined none a = a
    underlined (some c) a = if a.underline then record a { underline = false; fcolor = c } else a

    halfbright : Option ℕ → CharAttr → CharAttr
    halfbright none a = a
    halfbright (some c) a = if a.intensity == 0 then record a { intensity = 1; fcolor = c } else a

-- `VTerm::erase_char_attr`
unfoldable pub erase_char_attr : Settings → Pen → CharAttr
erase_char_attr s p = record (s.default_char_attr) {
  fcolor = p.char_attr.fcolor;
  bcolor = p.char_attr.bcolor;
  blink = p.char_attr.blink;
}

-- What an erased position holds.
abbrev pub erased : Term → Cell
erased t = record { code = b' '; attr = erase_char_attr t.settings t.pen }

-- `VTerm::total_history_lines`
unfoldable pub total_history_lines : Term → ℕ
total_history_lines t =
    if t.history.history_full then t.settings.history_lines else u16 t.history.history_save_line

-- `VTerm::mode`
unfoldable pub mode : Term → ModeType → ℕ
unfolding total_history_lines
mode t m = value m
  where
    bit : Bool → ℕ
    bit b = if b then 1 else 0

    value : ModeType → ℕ
    value ModeType.auto_repeat_key = bit t.flags.autorepeat_key
    value ModeType.applic_keypad = bit t.flags.applic_keypad
    value ModeType.mouse_report = mouse_report_value t.flags.mouse_report
    value ModeType.cursor_shape = t.flags.cursor_shape
    value ModeType.cursor_key_esc_o = bit t.flags.cursorkey_esco
    value ModeType.cr_with_lf = bit t.flags.crlf
    value ModeType.cursor_visible =
        bit (t.flags.cursor_visible && t.history.visual_start_line == total_history_lines t)
    value ModeType.all_modes = 0

-- `VTerm::get_line`: the line of the arrays that is shown in row `y`.
unfoldable pub get_line : Term → ℕ → ℕ
unfolding total_history_lines
get_line t y =
    let y' = if ltb t.screen.height y then t.screen.height else y in
    let line = u16 (t.history.visual_start_line + y') in
    if leb (total_history_lines t) line
    then t.screen.linenumbers (line - total_history_lines t)
    else ((if t.history.history_full then t.history.history_save_line else 0) + line)
      % t.settings.history_lines

-- `VTerm::charCode` and `VTerm::charAttr` together.
unfoldable pub cell_at : Term → ℕ → ℕ → Cell
unfolding get_line
cell_at t x y = t.screen.cells (get_line t y * t.screen.max_width + x)
