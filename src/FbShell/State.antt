-- ===== src/FbShell/State.antt =====
-- src/fbshell.h: the state of `FbShell`, and what it asks of the screen, of the input method and of
-- the kernel.
use fbterm.Prelude.{ℕ, ◌*◌, Bool, List, ◌∷◌, Store}
use fbterm.Vterm.Types.{CharAttr}
use fbterm.Vterm.State.{Term}
use fbterm.Shell.Select.{Shell}
use fbterm.FbShell.Palette.{Color}
use fbterm.Screen.Palette.{PalettePointer}

-- The calls, with pixels for the screen and for the input method's windows.
pub data Call : Type 0 where
  draw_text : (x y fc bc num : ℕ) → (text : List ℕ) → (dw : List Bool) → Call
  fill_rect : (x y w h color : ℕ) → Call
  move_screen : (sx sy dx dy w h : ℕ) → Call
  -- the pointer, and the palette that is there
  set_palette : PalettePointer → Store Color → Call
  redraw_im_win : (x y w h : ℕ) → Call
  im_switch_vt : (enter peer : Bool) → Call
  im_cursor_pos : (x y : ℕ) → Call
  im_term_mode : (crlf appkey curo : ℕ) → Call
  im_send_key : List ℕ → Call
  im_create im_toggle im_delete : Call
  -- the `write` to the console, and its bytes
  tty_write : List ℕ → Call
  set_timer : (sec usec : ℕ) → Call
  -- the console's messages are taken back, and sent to this shell if `enter` says so, where the console
  -- can be opened
  console_messages : (enter : Bool) → Call
  set_codec : List ℕ → Call

-- What the configuration and the font say: `FW(1)`, `FH(1)`, and the options `cursor-shape` and
-- `cursor-interval`.
pub record Config : Type 0 where
  pub font_w : ℕ
  pub font_h : ℕ
  pub cursor_block : Bool
  pub cursor_interval : ℕ

-- `FbShell::Cursor`
pub record Cursor : Type 0 where
  pub showed : Bool
  pub x : ℕ
  pub y : ℕ
  pub code : ℕ
  pub attr : CharAttr

-- `FbShell::MousePointer`
pub record MousePointer : Type 0 where
  pub x : ℕ
  pub y : ℕ
  pub drawed : Bool

-- `is_active` says that this is the manager's active shell, `timer_enabled` is the static variable of
-- `enableCursor`, `has_im` says that `mImProxy` is not null, and the last two are its `mConnected` and
-- `mActive`.
pub record FbShell : Type 0 where
  pub config : Config
  pub shell : Shell
  pub cursor : Cursor
  pub pointer : MousePointer
  pub palette_changed : Bool
  pub palette : Store Color
  pub is_active : Bool
  pub timer_enabled : Bool
  pub has_im : Bool
  pub im_connected : Bool
  pub im_actived : Bool
  -- newest first
  pub calls : List Call

abbrev pub call : Call → FbShell → FbShell
call c f = record f { calls = c ∷ f.calls }

abbrev pub term : FbShell → Term
term f = f.shell.term

-- `FW` and `FH`
abbrev pub fw : FbShell → ℕ → ℕ
fw f cols = f.config.font_w * cols

abbrev pub fh : FbShell → ℕ → ℕ
fh f rows = f.config.font_h * rows
