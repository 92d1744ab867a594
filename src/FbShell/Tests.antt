-- ===== src/FbShell/Tests.antt =====
-- A shell on the frame buffer, on concrete calls.
use fbterm.Prelude.{
  ◌/◌, ◌%◌, ◌≤◌, ◌≡◌, refl, true, false, none, some, [], ◌∷◌, ◌⊎◌, ◌==◌, if◌then◌else◌, arith,
}
use fbterm.Vterm.Types as V
use fbterm.Vterm.Types.{CharAttr}
use fbterm.Vterm.Sample.{small, plain}
use fbterm.FbShell.Palette.{rgb}
use fbterm.FbShell.State.{FbShell, draw_text, set_palette}
use fbterm.FbShell.Cursor.{adjust_char_attr, emphasis, draw_block, draw_chars, redraw_im}
use fbterm.FbShell.Modes.{clear_colors, own_palette, default_colors, set_color, switch_vt, request}
use fbterm.Screen.Palette as Screen
use fbterm.Screen.Palette.{ScreenPalette, null_palette, default_palette_at}
use fbterm.FbShell.Codec.{fields}
use fbterm.FbShell.Codec.Fields.{NoComma, NoCommas, fields-joined}
use fbterm.FbShell.Colors.{HasColors, adjust_char_attr-HasColors, set_color-own}
use fbterm.FbShell.Handle.{handle, handle-silent}
use fbterm.FbShell.Handle.Palette.{
  ShowsOwn, IsShown, Follows, told_palette, screen_palette, handle-Follows, switch_vt-ShowsOwn,
}

-- A shell on the small terminal, with a block for a cursor.
abbrev plain_shell : FbShell
plain_shell = record {
  config = record { font_w = 8; font_h = 16; cursor_block = true; cursor_interval = 500 };
  shell = record {
    term = small;
    start = 0;
    end = 0;
    selecting = false;
    color_inversed = false;
    text = none;
  };
  cursor = record { showed = false; x = 1; y = 0; code = b' '; attr = plain };
  pointer = record { x = 0; y = 0; drawed = false };
  palette_changed = false;
  palette = default_colors;
  is_active = true;
  timer_enabled = false;
  has_im = false;
  im_connected = false;
  im_actived = false;
  calls = [];
}

abbrev hidden_shell : FbShell
hidden_shell = record plain_shell { is_active = false }

abbrev reversed : CharAttr
reversed = record plain { reverse = true }

-- A reversed character under a block cursor that is not shown is drawn as if it were not reversed:
-- its colours have been exchanged before.
reversed_test :
    (draw_block (record plain_shell {
      cursor = record (plain_shell.cursor) { attr = adjust_char_attr reversed };
    })).calls
    ≡ draw_text 8 0 7 0 1 (b' ' ∷ []) (false ∷ []) ∷ []
unfolding draw_block draw_chars redraw_im adjust_char_attr emphasis
reversed_test = refl

handle-silent_example : (handle true (V.mode_changed V.all_modes) hidden_shell).calls ≡ []
handle-silent_example = handle-silent true (V.mode_changed V.all_modes) hidden_shell refl

-- Entry 1 in grey.
abbrev grey_one : V.Event
grey_one = V.request V.palette_set 25198720

shown-ShowsOwn : ShowsOwn (switch_vt true false false plain_shell)
shown-ShowsOwn = (switch_vt-ShowsOwn false false plain_shell).0

switch_vt-ShowsOwn_example :
    ShowsOwn (switch_vt true false false plain_shell)
    × (told_palette (switch_vt false false false plain_shell).calls
        ≡ some (default_palette_at, default_colors))
switch_vt-ShowsOwn_example = switch_vt-ShowsOwn false false plain_shell

-- A shell whose screen has the default palette.
abbrev told_shell : FbShell
told_shell = record plain_shell { calls = set_palette default_palette_at default_colors ∷ [] }

abbrev dark : ScreenPalette
dark = record { pointer = null_palette; colors = λ i. rgb 0 0 0 }

told_shell-IsShown : IsShown dark told_shell
unfolding IsShown screen_palette Screen.set_palette
told_shell-IsShown = (refl, refl)

handle-Follows_example : Follows dark grey_one told_shell (handle true grey_one told_shell)
handle-Follows_example = handle-Follows dark true grey_one told_shell refl told_shell-IsShown

-- Entry 1 in red, after it was set to grey: the screen is still set up for the grey.
abbrev red_one : V.Event
red_one = V.request V.palette_set 33488896

stale_colors :
    (screen_palette dark (handle true red_one (handle true grey_one told_shell)).calls).colors 1
    ≡ rgb 128 128 128
unfolding screen_palette Screen.set_palette handle request set_color
stale_colors = refl

reversed-HasColors : HasColors reversed
unfolding HasColors
reversed-HasColors = (omega arith, omega arith)

adjust_char_attr-HasColors_example :
    HasColors (adjust_char_attr reversed)
    × (true ≡ true
        → ((adjust_char_attr reversed).bcolor ≤ 8) ⊎ (16 ≤ (adjust_char_attr reversed).bcolor))
adjust_char_attr-HasColors_example = adjust_char_attr-HasColors reversed reversed-HasColors

set_color-own_example :
    (own_palette (set_color 25198720 plain_shell) 1 ≡ (
      if 1 == 25198720 / 16777216
      then rgb (25198720 / 65536 % 256) (25198720 / 256 % 256) (25198720 % 256)
      else own_palette plain_shell 1))
    × (own_palette (clear_colors (set_color 25198720 plain_shell)) ≡ default_colors)
set_color-own_example = set_color-own 25198720 plain_shell 1 (omega arith)

ab-NoComma : NoComma (b'a' ∷ b'b' ∷ [])
unfolding NoComma
ab-NoComma = (λ e. omega arith, (λ e. omega arith, tt))

cd-NoCommas : NoCommas ((b'c' ∷ []) ∷ (b'd' ∷ []) ∷ [])
unfolding NoCommas NoComma
cd-NoCommas = ((λ e. omega arith, tt), ((λ e. omega arith, tt), tt))

fields-joined_example :
    fields 2 (b'a' ∷ b'b' ∷ b',' ∷ b'c' ∷ b',' ∷ b'd' ∷ []) ≡ (b'a' ∷ b'b' ∷ []) ∷ (b'c' ∷ []) ∷ []
fields-joined_example =
    fields-joined 2 (b'a' ∷ b'b' ∷ []) ((b'c' ∷ []) ∷ (b'd' ∷ []) ∷ []) ab-NoComma cd-NoCommas
