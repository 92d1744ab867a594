-- ===== src/Vterm/Modes.antt =====
-- src/lib/vterm_action.cpp: parameters, modes, attributes, character sets, reports and requests.
pub mod Params
pub mod Switch
pub mod Attributes
pub mod Requests
unfoldable pub use Params.{param_digit, next_param, clear_param, respond_id, decimal, status_report}
pub use Params.{max_params}
unfoldable pub use Switch.{
  keypad_numeric, keypad_application, inverse_mode, switch_mode, enable_mode, set_mode, clear_mode,
}
unfoldable pub use Attributes.{
  change_attr, display_attr, set_display_attr, set_q_mode, set_cursor_type, set_utf8, clear_utf8,
  named_charset, set_charset, active_g0, active_g1, current_is_g0, current_is_g1,
}
unfoldable pub use Requests.{
  linux_specific, begin_set_palette, hex_digit, palette_value, set_palette, reset_palette, set_led,
  fbterm_specific,
}
