-- ===== src/FbShell/Colors.antt =====
-- The colours of characters, and of the palette that a program sets.
use fbterm.Prelude.{ℕ, ◌/◌, ◌%◌, ◌≤◌, ◌<◌, ◌≡◌, true, ◌==◌, if◌then◌else◌, ◌⊎◌, arith}
use fbterm.Vterm.Types.{CharAttr}
use fbterm.FbShell.Palette.{rgb}
use fbterm.FbShell.State.{FbShell}
use fbterm.FbShell.Cursor.{adjust_char_attr, emphasis}
use fbterm.FbShell.Modes.{clear_colors, default_colors, own_palette, set_color}

-- Both colours are entries of the palette.
unfoldable pub HasColors : CharAttr → Type 0
HasColors a = (a.fcolor < 256) × (a.bcolor < 256)

-- From colours of the palette, the colours to draw with are colours of the palette, and in reverse the
-- background is none of the bright ones.
pub adjust_char_attr-HasColors :
    (a : CharAttr)
    → HasColors a
    → HasColors (adjust_char_attr a)
      × (a.reverse ≡ true → ((adjust_char_attr a).bcolor ≤ 8) ⊎ (16 ≤ (adjust_char_attr a).bcolor))
unfolding adjust_char_attr emphasis HasColors
adjust_char_attr-HasColors a (f, b) = ground (arith, f, b)

-- A request of 32 bits sets the entry that its top byte names to the colour of its other bytes, and no
-- other entry; a request that clears the palette afterwards gives the default one.
pub set_color-own :
    (val : ℕ) (f : FbShell) (j : ℕ)
    → val < 4294967296
    → (own_palette (set_color val f) j ≡ (
        if j == val / 16777216
        then rgb (val / 65536 % 256) (val / 256 % 256) (val % 256)
        else own_palette f j))
      × (own_palette (clear_colors (set_color val f)) ≡ default_colors)
unfolding set_color clear_colors
set_color-own val f j h = ground (arith, h)
