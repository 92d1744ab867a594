-- ===== src/Vterm/Modes/Attributes.antt =====
-- src/lib/vterm_action.cpp: attributes and character sets.
use fbterm.Prelude.{ℕ, ◌+◌, ◌%◌, Bool, true, false, ◌||◌, ◌==◌, if◌then◌else◌, within}
use fbterm.Prelude.Loops.{for_range}
use fbterm.Vterm.Types.{
  CharAttr, CharsetMap, lat1_map, graf_map, ibmpc_map, user_map, ModeType, mode_changed,
}
use fbterm.Vterm.State.{Term, emit, with_parser, with_charsets, with_flags, with_pen}
use fbterm.Vterm.Modes.Params.{respond_id}

-- The cases 10, 11 and 12 of `set_display_attr`: the character set, and the two flags.
abbrev pub select_charset : CharsetMap → Bool → Bool → Term → Term
select_charset m display_ctrl toggle_meta t = record t {
  charsets = record (t.charsets) { charset = m };
  flags = record (t.flags) { display_ctrl = display_ctrl; toggle_meta = toggle_meta };
}

-- The cases of `set_display_attr` that change `char_attr` alone.
unfoldable pub change_attr : ℕ → CharAttr → ℕ → ℕ → CharAttr → CharAttr
change_attr p default_attr cur_fcolor cur_bcolor a =
    if p == 0
    then default_attr
    else if p == 1
    then record a { intensity = 2 }
    else if p == 2
    then record a { intensity = 0 }
    else if p == 3
    then record a { italic = true }
    else if p == 4
    then record a { underline = true }
    else if p == 5
    then record a { blink = true }
    else if p == 7
    then record a { reverse = true }
    else if p == 21 || p == 22
    then record a { intensity = 1 }
    else if p == 23
    then record a { italic = false }
    else if p == 24
    then record a { underline = false }
    else if p == 25
    then record a { blink = false }
    else if p == 27
    then record a { reverse = false }
    else if within 30 37 p
    then record a { fcolor = p % 10 }
    else if p == 38
    then record a { fcolor = cur_fcolor; underline = true }
    else if p == 39
    then record a { fcolor = cur_fcolor; underline = false }
    else if within 40 47 p
    then record a { bcolor = p % 10 }
    else if p == 49
    then record a { bcolor = cur_bcolor }
    else a

-- One round of the loop of `set_display_attr`.
unfoldable pub display_attr : ℕ → Term → Term
display_attr n t =
    let p = t.parser.param n in
    let c = t.charsets in
    if p == 10
    then select_charset (if c.g0_is_active then c.g0_charset else c.g1_charset) false false t
    else if p == 11
    then select_charset ibmpc_map true false t
    else if p == 12
    then select_charset ibmpc_map true true t
    else with_pen t (record (t.pen) {
      char_attr =
          change_attr p t.settings.default_char_attr t.pen.cur_fcolor t.pen.cur_bcolor
            t.pen.char_attr;
    })

-- `VTerm::set_display_attr`
unfoldable pub set_display_attr : Term → Term
set_display_attr t = for_range (t.parser.npar + 1) 0 display_attr t

-- `VTerm::set_q_mode`
unfoldable pub set_q_mode : Term → Term
set_q_mode t = with_parser t (record (t.parser) { q_mode = true })

-- `VTerm::set_cursor_type`. `cursor_shape` has three bits.
unfoldable pub set_cursor_type : Term → Term
set_cursor_type t =
    let p = t.parser.param 0 in
    if t.parser.q_mode
    then emit (mode_changed ModeType.cursor_shape)
        (with_flags t (record (t.flags) { cursor_shape = p % 8 }))
    else if p == 0
    then respond_id t
    else t

-- `VTerm::set_utf8`
unfoldable pub set_utf8 : Term → Term
set_utf8 t = with_parser t (record (t.parser) { utf8 = true })

-- `VTerm::clear_utf8`
unfoldable pub clear_utf8 : Term → Term
clear_utf8 t = with_parser t (record (t.parser) { utf8 = false })

-- The `switch` of `set_charset`.
unfoldable pub named_charset : ℕ → CharsetMap → CharsetMap
named_charset c m =
    if c == b'0'
    then lat1_map
    else if c == b'B'
    then graf_map
    else if c == b'U'
    then ibmpc_map
    else if c == b'K'
    then user_map
    else m

-- `VTerm::set_charset`
unfoldable pub set_charset : Term → Term
set_charset t =
    let c = t.charsets in
    let ch = t.parser.cur_char in
    with_charsets t (
      if c.g0_is_current
      then record c { g0_charset = named_charset ch c.g0_charset }
      else record c { g1_charset = named_charset ch c.g1_charset })

-- `VTerm::active_g0`
unfoldable pub active_g0 : Term → Term
active_g0 t = record t {
  charsets = record (t.charsets) { charset = t.charsets.g0_charset; g0_is_active = true };
  flags = record (t.flags) { display_ctrl = false };
}

-- `VTerm::active_g1`
unfoldable pub active_g1 : Term → Term
active_g1 t = record t {
  charsets = record (t.charsets) { charset = t.charsets.g1_charset; g0_is_active = false };
  flags = record (t.flags) { display_ctrl = true };
}

-- `VTerm::current_is_g0`
unfoldable pub current_is_g0 : Term → Term
current_is_g0 t = with_charsets t (record (t.charsets) { g0_is_current = true })

-- `VTerm::current_is_g1`
unfoldable pub current_is_g1 : Term → Term
current_is_g1 t = with_charsets t (record (t.charsets) { g0_is_current = false })
