-- ===== src/Vterm/Modes/Requests.antt =====
-- src/lib/vterm_action.cpp: requests and the palette.
use fbterm.Prelude.{
  ℕ, zero, suc, ◌+◌, ◌-◌, ◌*◌, ◌%◌, true, not, ◌&&◌, ◌||◌, some, ltb, leb, ◌==◌, if◌then◌else◌, u16,
  u32, sub16, Store, put,
}
use fbterm.Vterm.Types.{es_normal, RequestType, request}
use fbterm.Vterm.State.{Term, emit, with_parser, with_pen}

-- `VTerm::linux_specific`
unfoldable pub linux_specific : Term → Term
linux_specific t =
    let p = t.parser.param 0 in
    let v = t.parser.param 1 in
    if p == 1
    then if ltb v 8 then with_pen t (record (t.pen) { cur_underline_color = some v }) else t
    else if p == 2
    then if ltb v 8 then with_pen t (record (t.pen) { cur_halfbright_color = some v }) else t
    else if p == 8
    then with_pen t (record (t.pen) {
      cur_fcolor = t.pen.char_attr.fcolor;
      cur_bcolor = t.pen.char_attr.bcolor;
    })
    else if p == 9
    then emit (request RequestType.blank v) t
    else if p == 10
    then emit (request RequestType.bell_frequency_set v) t
    else if p == 11
    then emit (request RequestType.bell_duration_set v) t
    else if p == 12
    then emit (request RequestType.vc_switch v) t
    else if p == 13
    then emit (request RequestType.unblank 0) t
    else if p == 14
    then emit (request RequestType.vesa_power_interval_set v) t
    else t

-- `VTerm::begin_set_palette`
unfoldable pub begin_set_palette : Term → Term
begin_set_palette t =
    let p = t.parser in
    with_parser t (
      if p.palette_mode || not (p.npar == 0)
      then record p { esc_state = es_normal }
      else record p { palette_mode = true })

-- The value of a hexadecimal digit, as `set_palette` reads it.
unfoldable pub hex_digit : ℕ → ℕ
hex_digit c =
    if leb b'a' c then c - b'a' + 10 else if leb b'A' c then c - b'A' + 10 else sub16 c b'0'

-- `val <<= 4; val |= param[i]` over the seven parameters, each below 16.
unfoldable pub palette_value : ℕ → Store ℕ → ℕ
palette_value zero param = 0
palette_value (suc n) param = u32 (palette_value n param * 16 + param n)

-- `VTerm::set_palette`
unfoldable pub set_palette : Term → Term
set_palette t =
    let p = t.parser in
    let stored = record p {
      param = put p.param p.npar (hex_digit p.cur_char);
      npar = u16 (p.npar + 1);
    } in
    if not p.palette_mode
    then with_parser t (record p { esc_state = es_normal })
    else if not (stored.npar == 7)
    then with_parser t stored
    else emit (request RequestType.palette_set (palette_value 7 stored.param))
        (with_parser t (record stored { esc_state = es_normal }))

-- `VTerm::reset_palette`
unfoldable pub reset_palette : Term → Term
reset_palette t = emit (request RequestType.palette_clear 0) t

-- `VTerm::set_led`
unfoldable pub set_led : Term → Term
set_led t =
    let p = t.parser.param 0 in
    emit (request (if p == 0 then RequestType.led_clear else RequestType.led_set) p) t

-- `VTerm::fbterm_specific`. The colours are 8-bit fields.
unfoldable pub fbterm_specific : Term → Term
fbterm_specific t =
    let p = t.parser in
    let a = t.pen.char_attr in
    if p.param 0 == 1 && p.npar == 1
    then with_pen t (record (t.pen) { char_attr = record a { fcolor = p.param 1 % 256 } })
    else if p.param 0 == 2 && p.npar == 1
    then with_pen t (record (t.pen) { char_attr = record a { bcolor = p.param 1 % 256 } })
    else if p.param 0 == 3 && p.npar == 4
    then emit
        (request RequestType.palette_set (
          p.param 1 % 256 * 16777216
          + p.param 2 % 256 * 65536
          + p.param 3 % 256 * 256
          + p.param 4 % 256))
        t
    else t
