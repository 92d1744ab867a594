-- ===== src/FbShell/Modes.antt =====
-- src/fbshell.cpp: modes, palette and the change of the shell that is shown.
use fbterm.Prelude.{
  ℕ, ◌*◌, ◌/◌, ◌%◌, Bool, true, false, not, ◌&&◌, ◌||◌, Option, none, some, List, [], ◌∷◌, leb,
  ◌==◌, if◌then◌else◌, Store, put, get_or,
}
use fbterm.Vterm.Types.{ModeType, RequestType}
use fbterm.Vterm.State.{mode}
use fbterm.FbShell.Palette.{Color, rgb, default_palette}
use fbterm.Screen.Palette.{PalettePointer, default_palette_at, shell_palette}
use fbterm.FbShell.State.{
  FbShell, set_timer, tty_write, set_palette, im_term_mode, im_switch_vt, console_messages, call,
  term,
}
use fbterm.FbShell.Cursor.{report_cursor}

-- `FbShell::enableCursor`
unfoldable pub enable_cursor : Bool → FbShell → FbShell
enable_cursor enable f =
    let val = if enable then f.config.cursor_interval else 0 in
    let same = if enable then f.timer_enabled else not f.timer_enabled in
    if f.config.cursor_interval == 0
    then f
    else if same
    then f
    else call (set_timer (val / 1000) (val % 1000 * 1000)) (record f { timer_enabled = enable })

-- The bytes that `changeMode` writes.
unfoldable pub mode_bytes : ModeType → Bool → Option (List ℕ)
mode_bytes ModeType.cursor_key_esc_o val =
    some (27 ∷ b'[' ∷ b'?' ∷ b'1' ∷ (if val then b'h' else b'l') ∷ [])
mode_bytes ModeType.auto_repeat_key val =
    some (27 ∷ b'[' ∷ b'?' ∷ b'8' ∷ (if val then b'h' else b'l') ∷ [])
mode_bytes ModeType.applic_keypad val = some (27 ∷ (if val then b'=' else b'>') ∷ [])
mode_bytes ModeType.cr_with_lf val =
    some (27 ∷ b'[' ∷ b'2' ∷ b'0' ∷ (if val then b'h' else b'l') ∷ [])
mode_bytes _ val = none

-- `FbShell::changeMode`
unfoldable pub change_mode : ModeType → Bool → FbShell → FbShell
change_mode type val f = elim (mode_bytes type val) [
  | none ↦ f
  | some bytes ↦ call (tty_write bytes) f
]

-- `FbShell::reportMode`
unfoldable pub report_mode : FbShell → FbShell
report_mode f =
    if f.has_im
    then call
        (im_term_mode (mode (term f) ModeType.cr_with_lf) (mode (term f) ModeType.applic_keypad)
          (mode (term f) ModeType.cursor_key_esc_o))
        f
    else f

-- The value of the enumeration, a bit of its own but for `AllModes`.
abbrev pub mode_bit : ModeType → ℕ
mode_bit ModeType.cursor_visible = 1
mode_bit ModeType.cursor_shape = 2
mode_bit ModeType.mouse_report = 4
mode_bit ModeType.cursor_key_esc_o = 8
mode_bit ModeType.auto_repeat_key = 16
mode_bit ModeType.applic_keypad = 32
mode_bit ModeType.cr_with_lf = 64
mode_bit ModeType.all_modes = 255

-- `type & flag`, for a flag of one bit.
unfoldable pub concerns : ModeType → ModeType → Bool
concerns type flag = mode_bit type / mode_bit flag % 2 == 1

-- `if (type & flag) changeMode(flag, mode(flag));`
unfoldable pub pass_mode : ModeType → ModeType → FbShell → FbShell
pass_mode type flag f =
    if concerns type flag then change_mode flag (not (mode (term f) flag == 0)) f else f

-- `FbShell::modeChanged`
unfoldable pub mode_changed : ModeType → FbShell → FbShell
mode_changed type f =
    let t = term f in
    let blinks =
      not (mode t ModeType.cursor_visible == 0) && not (mode t ModeType.cursor_shape == 1) in
    let shown =
      if concerns type ModeType.cursor_visible || concerns type ModeType.cursor_shape
      then enable_cursor blinks f
      else f in
    let passed = pass_mode type ModeType.cr_with_lf (
      pass_mode type ModeType.applic_keypad (
        pass_mode type ModeType.auto_repeat_key
          (pass_mode type ModeType.cursor_key_esc_o shown))) in
    let told =
      if concerns type ModeType.cursor_key_esc_o
        || concerns type ModeType.applic_keypad
        || concerns type ModeType.cr_with_lf
      then report_mode passed
      else passed in
    if f.is_active then told else f

-- `defaultPalette`, as an array.
abbrev pub default_colors : Store Color
default_colors i = get_or default_palette i (rgb 0 0 0)

-- `case PaletteSet` of `request`, on the entry and the colour that the request's value holds.
unfoldable pub set_color : ℕ → FbShell → FbShell
set_color val f =
    let old = if f.palette_changed then f.palette else default_colors in
    let new = put old (val / 16777216) (rgb (val / 65536 % 256) (val / 256 % 256) (val % 256)) in
    let u = record f { palette_changed = true; palette = new } in
    if leb 256 (val / 16777216)
    then f
    else if f.is_active
    then call (set_palette shell_palette new) u
    else u

-- `case PaletteClear` of `request`
unfoldable pub clear_colors : FbShell → FbShell
clear_colors f =
    let u = record f { palette_changed = false } in
    if f.palette_changed
    then if f.is_active then call (set_palette default_palette_at default_colors) u else u
    else f

-- `FbShell::request`
unfoldable pub request : RequestType → ℕ → FbShell → FbShell
request RequestType.palette_set val f = set_color val f
request RequestType.palette_clear val f = clear_colors f
request _ val f = f

-- The palette that belongs to the shell.
abbrev pub own_palette : FbShell → Store Color
own_palette f = if f.palette_changed then f.palette else default_colors

-- `mPaletteChanged ? mPalette : defaultPalette`
abbrev pub own_pointer : FbShell → PalettePointer
own_pointer f = if f.palette_changed then shell_palette else default_palette_at

-- `FbShell::switchVt`; `peer` says that there is a shell to switch to or from, `peer_im` that it has an
-- input method.
unfoldable pub switch_vt : Bool → Bool → Bool → FbShell → FbShell
switch_vt enter peer peer_im f =
    let taken = call (console_messages enter) f in
    let told = if f.has_im then call (im_switch_vt enter (peer && peer_im)) taken else taken in
    if enter
    then report_cursor
        (mode_changed ModeType.all_modes (call (set_palette (own_pointer f) (own_palette f)) told))
    else if peer
    then told
    else call (set_palette default_palette_at default_colors) (
        enable_cursor false (
          change_mode ModeType.auto_repeat_key true (
            change_mode ModeType.cr_with_lf false (
              change_mode ModeType.applic_keypad false
                (change_mode ModeType.cursor_key_esc_o false told)))))
