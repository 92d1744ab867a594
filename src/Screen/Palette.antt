-- ===== src/Screen/Palette.antt =====
-- src/screen_render.cpp: `setPalette`.
use fbterm.Prelude.{Bool, true, false, if◌then◌else◌, Store}
use fbterm.FbShell.Palette.{Color}

-- A pointer to a palette: null, `defaultPalette`, the `mPalette` of the shell that is looked at, or
-- that of another shell.
pub data PalettePointer : Type 0 where
  null_palette default_palette_at shell_palette other_palette : PalettePointer

abbrev pub same_pointer : PalettePointer → PalettePointer → Bool
same_pointer null_palette null_palette = true
same_pointer default_palette_at default_palette_at = true
same_pointer shell_palette shell_palette = true
same_pointer other_palette other_palette = true
same_pointer _ _ = false

-- `mPalette` of the screen, and the colours that `fillColors` and the device were last set up for.
pub record ScreenPalette : Type 0 where
  pub pointer : PalettePointer
  pub colors : Store Color

-- `Screen::setPalette`, for a pointer and the palette that is there: a pointer that the screen has
-- already is not looked at again.
unfoldable pub set_palette : PalettePointer → Store Color → ScreenPalette → ScreenPalette
set_palette palette colors s =
    if same_pointer s.pointer palette then s else record { pointer = palette; colors = colors }
