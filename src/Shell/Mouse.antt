-- ===== src/Shell/Mouse.antt =====
-- src/lib/shell.cpp: what a shell does on mouse events, on keys and on text of the program.
pub mod Marked
use fbterm.Prelude.{
  ℕ, ◌+◌, ◌-◌, ◌/◌, ◌%◌, Bool, true, false, not, ◌&&◌, ◌||◌, Option, none, some, List, [], ◌∷◌, ltb,
  leb, ◌==◌, if◌then◌else◌, u8, u16, sub16, Store,
}
use fbterm.Prelude.Results.{◌>>=◌}
use fbterm.Vterm.Types.{Cell, mouse_report_value, send_back}
use fbterm.Vterm.State.{Term, emit}
use fbterm.Vterm.Input.{input}
use fbterm.Vterm.Resize.{resize}
use fbterm.Shell.Select.{
  Shell, w, bit, send_string, reset_text_select, start_text_select, middle_text_select,
  end_text_select, auto_text_select, put_selected_text,
}

pub data MouseType : Type 0 where
  press release dbl_click move wheel : MouseType

abbrev pub is_press : MouseType → Bool
is_press press = true
is_press dbl_click = true
is_press _ = false

-- `ButtonState`: the tests of `btn & LeftButton` and its fellows, and the masks.
abbrev pub left_button : ℕ
left_button = 1

abbrev pub right_button : ℕ
right_button = 2

abbrev pub has_left : ℕ → Bool
has_left b = bit b 0

abbrev pub has_right : ℕ → Bool
has_right b = bit b 1

abbrev pub has_mid : ℕ → Bool
has_mid b = bit b 2

abbrev pub has_wheel_down : ℕ → Bool
has_wheel_down b = bit b 3

abbrev pub has_shift : ℕ → Bool
has_shift b = bit b 8

abbrev pub has_control : ℕ → Bool
has_control b = bit b 9

abbrev pub has_alt : ℕ → Bool
has_alt b = bit b 10

-- `buttons & MouseButtonMask`
abbrev pub pressed : ℕ → ℕ
pressed buttons = buttons % 256

-- `Shell::textSelect`
unfoldable pub text_select : Store ℕ → ℕ → ℕ → MouseType → ℕ → Shell → Shell
text_select lut x y type btn s =
    if btn == left_button
    then elim type [
      | press ↦ start_text_select x y (record (reset_text_select s) { selecting = true })
      | move ↦
          if s.selecting
          then middle_text_select x y s
          else start_text_select x y (record (reset_text_select s) { selecting = true })
      | release ↦ end_text_select (record s { selecting = false })
      | dbl_click ↦ auto_text_select lut x y (reset_text_select s)
      | wheel ↦ s
    ]
    else if btn == right_button && is_press type
    then put_selected_text (reset_text_select s)
    else s

-- The button's number in a report, before the keys that are held; `x11` says that the mode is
-- `MouseX11`. None stands for -1.
unfoldable pub button_value : Bool → MouseType → ℕ → Option ℕ
button_value x11 type btn = elim type [
  | press ↦ by_button
  | dbl_click ↦ by_button
  | release ↦ if x11 then some 3 else none
  | wheel ↦ if x11 then some (if has_wheel_down btn then 65 else 64) else none
  | move ↦ none
]
  where
    by_button : Option ℕ
    by_button =
        if has_left btn
        then some 0
        else if has_mid btn
        then some 1
        else if has_right btn
        then some 2
        else none

-- The keys that are held; the bits are not set in the values of `button_value`.
unfoldable pub with_keys : Bool → ℕ → ℕ → ℕ
with_keys x11 buttons val =
    if x11
    then val
      + (if has_shift buttons then 4 else 0)
      + (if has_alt buttons then 8 else 0)
      + (if has_control buttons then 16 else 0)
    else val

-- The bytes of the report.
unfoldable pub mouse_bytes : ℕ → ℕ → ℕ → List ℕ
mouse_bytes val x y = 27 ∷ b'[' ∷ b'M' ∷ u8 (32 + val) ∷ u8 (32 + x + 1) ∷ u8 (32 + y + 1) ∷ []

-- The part of `mouseInput` that reports to the program.
unfoldable pub report_mouse : Bool → ℕ → ℕ → MouseType → ℕ → Shell → Shell
report_mouse x11 x y type buttons s = elim (button_value x11 type (pressed buttons)) [
  | none ↦ s
  | some val ↦ send_string (mouse_bytes (with_keys x11 buttons val) x y) s
]

-- `Shell::mouseInput`; the source compares the mode, which is at most 2, with `Wheel`, which is 4.
unfoldable pub mouse_input : Store ℕ → ℕ → ℕ → MouseType → ℕ → Shell → Shell
mouse_input lut x y type buttons s =
    let x' = if leb (w s) x then sub16 (w s) 1 else x in
    let y' = if leb s.term.screen.height y then sub16 s.term.screen.height 1 else y in
    let btn = pressed buttons in
    let rtype = mouse_report_value s.term.flags.mouse_report in
    if not (btn == 0) && not (rtype == 4) && (rtype == 0 || has_shift buttons)
    then text_select lut x' y' type btn s
    else if rtype == 0
    then s
    else report_mouse (rtype == 1) x' y' type buttons s

-- `Shell::keyInput`; the bytes are written as they are.
unfoldable pub key_input : List ℕ → Shell → Shell
key_input bytes s = let r = reset_text_select s in record r { term = emit (send_back bytes) r.term }

-- `Shell::readyRead`
unfoldable pub ready_read : List ℕ → Shell → Option Shell
ready_read bytes s =
    let r = reset_text_select s in input bytes r.term >>= λ t. some (record r { term = t })

-- `Shell::resize`, but for the call of the kernel that tells the program.
unfoldable pub resize_shell : Store Cell → ℕ → ℕ → Shell → Shell
resize_shell fresh columns rows s =
    let r = reset_text_select s in
    if columns == 0 || rows == 0 then s else record r { term = resize fresh columns rows r.term }
