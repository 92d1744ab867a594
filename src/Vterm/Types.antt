-- ===== src/Vterm/Types.antt =====
-- The enumerations and small structs of src/lib/vterm.h.
use fbterm.Prelude.{ℕ, Bool, true, false, not, xor, ◌||◌, List, ◌==◌}

-- `CharAttr::CharType`
pub data CharType : Type 0 where
  single double_left double_right : CharType

abbrev pub is_single : CharType → Bool
is_single single = true
is_single _ = false

abbrev pub is_left : CharType → Bool
is_left double_left = true
is_left _ = false

abbrev pub is_right : CharType → Bool
is_right double_right = true
is_right _ = false

-- `CharAttr`. The colours are 8-bit fields, `intensity` has two bits.
pub record CharAttr : Type 0 where
  pub fcolor : ℕ
  pub bcolor : ℕ
  pub intensity : ℕ
  pub italic : Bool
  pub underline : Bool
  pub blink : Bool
  pub reverse : Bool
  pub type : CharType

-- `operator !=`, which leaves `type` out.
unfoldable pub differs : CharAttr → CharAttr → Bool
differs a b =
    not (a.fcolor == b.fcolor)
    || not (a.bcolor == b.bcolor)
    || not (a.intensity == b.intensity)
    || xor a.italic b.italic
    || xor a.underline b.underline
    || xor a.blink b.blink
    || xor a.reverse b.reverse

-- One position of the parallel arrays `text` and `attrs`.
pub record Cell : Type 0 where
  pub code : ℕ
  pub attr : CharAttr

pub data MouseReportType : Type 0 where
  mouse_none mouse_x11 mouse_x10 : MouseReportType

-- The value of the enumeration, as `mode` returns it.
abbrev pub mouse_report_value : MouseReportType → ℕ
mouse_report_value mouse_none = 0
mouse_report_value mouse_x11 = 1
mouse_report_value mouse_x10 = 2

pub data ModeType : Type 0 where
  cursor_visible cursor_shape mouse_report cursor_key_esc_o : ModeType
  auto_repeat_key applic_keypad cr_with_lf all_modes : ModeType

pub data RequestType : Type 0 where
  bell bell_frequency_set bell_duration_set palette_set palette_clear : RequestType
  blank unblank led_set led_clear vc_switch vesa_power_interval_set : RequestType

pub data EscapeState : Type 0 where
  es_normal es_esc es_square es_nonstd es_percent es_charset es_hash es_funckey : EscapeState
  es_keep : EscapeState

abbrev pub is_normal : EscapeState → Bool
is_normal es_normal = true
is_normal _ = false

-- The value of the enumeration.
abbrev pub escape_index : EscapeState → ℕ
escape_index es_normal = 0
escape_index es_esc = 1
escape_index es_square = 2
escape_index es_nonstd = 3
escape_index es_percent = 4
escape_index es_charset = 5
escape_index es_hash = 6
escape_index es_funckey = 7
escape_index es_keep = 8

pub data CharsetMap : Type 0 where
  lat1_map graf_map ibmpc_map user_map : CharsetMap

-- `ModeFlag`
pub record ModeFlag : Type 0 where
  pub toggle_meta : Bool
  pub inverse_screen : Bool
  pub display_ctrl : Bool
  pub crlf : Bool
  pub auto_wrap : Bool
  pub insert_mode : Bool
  pub cursor_visible : Bool
  pub cursor_relative : Bool
  pub col_132 : Bool
  pub applic_keypad : Bool
  pub autorepeat_key : Bool
  pub cursorkey_esco : Bool
  pub mouse_report : MouseReportType
  pub cursor_shape : ℕ

-- `ModeFlag::ModeFlag()`
unfoldable pub new_mode_flag : ModeFlag
new_mode_flag = record {
  toggle_meta = false;
  inverse_screen = false;
  display_ctrl = false;
  crlf = false;
  auto_wrap = true;
  insert_mode = false;
  cursor_visible = true;
  cursor_relative = false;
  col_132 = false;
  applic_keypad = false;
  autorepeat_key = true;
  cursorkey_esco = false;
  mouse_report = mouse_none;
  cursor_shape = 0;
}

-- The calls of the virtual functions, by which the terminal acts on its surroundings.
pub data Event : Type 0 where
  draw_chars : CharAttr → (x y w num : ℕ) → (chars : List ℕ) → (dws : List Bool) → Event
  move_chars : (sx sy dx dy w h : ℕ) → Event
  draw_cursor : CharAttr → (x y c : ℕ) → Event
  send_back : List ℕ → Event
  mode_changed : ModeType → Event
  history_changed : (cur total : ℕ) → Event
  request : RequestType → ℕ → Event
