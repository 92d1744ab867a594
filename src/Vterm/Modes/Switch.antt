-- ===== src/Vterm/Modes/Switch.antt =====
-- src/lib/vterm_action.cpp: modes.
use fbterm.Prelude.{ℕ, ◌+◌, Bool, true, false, ◌==◌, if◌then◌else◌, sub16}
use fbterm.Prelude.Loops.{for_range}
use fbterm.Vterm.Types.{ModeType, mouse_none, mouse_x10, mouse_x11, mode_changed}
use fbterm.Vterm.State.{Term, emit, with_flags, with_screen}
use fbterm.Vterm.Area.{changed_line}

-- `VTerm::keypad_numeric`
unfoldable pub keypad_numeric : Term → Term
keypad_numeric t =
    emit (mode_changed ModeType.applic_keypad)
      (with_flags t (record (t.flags) { applic_keypad = false }))

-- `VTerm::keypad_application`
unfoldable pub keypad_application : Term → Term
keypad_application t =
    emit (mode_changed ModeType.applic_keypad)
      (with_flags t (record (t.flags) { applic_keypad = true }))

-- The `case 1005` of `enable_mode`: the whole screen is drawn again.
unfoldable pub inverse_mode : Bool → Term → Term
inverse_mode enable t =
    let u = with_flags t (record (t.flags) { inverse_screen = enable }) in
    with_screen u
      (for_range t.screen.height 0 (λ i s. changed_line i 0 (sub16 s.width 1) s) u.screen)

-- The `switch` of `enable_mode` on the value `p`.
unfoldable pub switch_mode : ℕ → Bool → Term → Term
switch_mode p enable t =
    let f = t.flags in
    if p == 3
    then with_flags t (record f { display_ctrl = enable })
    else if p == 4
    then with_flags t (record f { insert_mode = enable })
    else if p == 20
    then emit (mode_changed ModeType.cr_with_lf) (with_flags t (record f { crlf = enable }))
    else if p == 1001
    then emit (mode_changed ModeType.cursor_key_esc_o)
        (with_flags t (record f { cursorkey_esco = enable }))
    else if p == 1003
    then with_flags t (record f { col_132 = enable })
    else if p == 1005
    then inverse_mode enable t
    else if p == 1006
    then with_flags t (record f { cursor_relative = enable })
    else if p == 1007
    then with_flags t (record f { auto_wrap = enable })
    else if p == 1008
    then emit (mode_changed ModeType.auto_repeat_key)
        (with_flags t (record f { autorepeat_key = enable }))
    else if p == 1009
    then emit (mode_changed ModeType.mouse_report)
        (with_flags t (record f { mouse_report = if enable then mouse_x10 else mouse_none }))
    else if p == 1025
    then emit (mode_changed ModeType.cursor_visible)
        (with_flags t (record f { cursor_visible = enable }))
    else if p == 2000
    then emit (mode_changed ModeType.mouse_report)
        (with_flags t (record f { mouse_report = if enable then mouse_x11 else mouse_none }))
    else t

-- `VTerm::enable_mode`
unfoldable pub enable_mode : Bool → Term → Term
enable_mode enable t =
    switch_mode (t.parser.param 0 + (if t.parser.q_mode then 1000 else 0)) enable t

-- `VTerm::set_mode`
unfoldable pub set_mode : Term → Term
set_mode t = enable_mode true t

-- `VTerm::clear_mode`
unfoldable pub clear_mode : Term → Term
clear_mode t = enable_mode false t
