-- ===== src/Vterm/Fits.antt =====
-- The geometry of the terminal: the cursor and the scroll region stay on the screen.
pub mod Areas
pub mod Actions
pub mod Dispatch
pub mod Chars
pub mod Columns
use fbterm.Prelude.{ℕ, ◌≤◌, ◌<◌, ◌≡◌, ◌+◌}
use fbterm.Vterm.State.{Term, Screen}

-- Sizes are u16 values, and a screen has two columns, the room of a double width character. A
-- cursor behind the last column waits for the next character to wrap.
pub record Fits (s : Screen) : Type 0 where
  pub two_columns : 2 ≤ s.width
  pub one_row : 1 ≤ s.height
  pub width_in : s.width ≤ s.max_width
  pub height_in : s.height ≤ s.max_height
  pub max_width_u16 : s.max_width < 65536
  pub max_height_u16 : s.max_height < 65536
  pub cursor_x_in : s.cursor_x ≤ s.width
  pub cursor_y_in : s.cursor_y < s.height
  pub scroll_bot_in : s.scroll_bot < s.height
