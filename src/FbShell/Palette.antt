-- ===== src/FbShell/Palette.antt =====
-- src/fbshell.cpp: `defaultPalette`, the colours that a shell shows until the program sets others.
use fbterm.Prelude.{ℕ, List, [], ◌∷◌, ◌++◌}

-- `Color` of src/screen.h
pub record Color : Type 0 where
  pub red : ℕ
  pub green : ℕ
  pub blue : ℕ

abbrev pub rgb : ℕ → ℕ → ℕ → Color
rgb r g b = record { red = r; green = g; blue = b }

-- Entries 0 to 15.
abbrev pub system_colors : List Color
system_colors =
    rgb 0 0 0
    ∷ rgb 170 0 0
    ∷ rgb 0 170 0
    ∷ rgb 170 85 0
    ∷ rgb 0 0 170
    ∷ rgb 170 0 170
    ∷ rgb 0 170 170
    ∷ rgb 170 170 170
    ∷ rgb 85 85 85
    ∷ rgb 255 85 85
    ∷ rgb 85 255 85
    ∷ rgb 255 255 85
    ∷ rgb 85 85 255
    ∷ rgb 255 85 255
    ∷ rgb 85 255 255
    ∷ rgb 255 255 255
    ∷ []

-- Entries 16 to 51.
abbrev pub cube_no_red : List Color
cube_no_red =
    rgb 0 0 0
    ∷ rgb 0 0 95
    ∷ rgb 0 0 135
    ∷ rgb 0 0 175
    ∷ rgb 0 0 215
    ∷ rgb 0 0 255
    ∷ rgb 0 95 0
    ∷ rgb 0 95 95
    ∷ rgb 0 95 135
    ∷ rgb 0 95 175
    ∷ rgb 0 95 215
    ∷ rgb 0 95 255
    ∷ rgb 0 135 0
    ∷ rgb 0 135 95
    ∷ rgb 0 135 135
    ∷ rgb 0 135 175
    ∷ rgb 0 135 215
    ∷ rgb 0 135 255
    ∷ rgb 0 175 0
    ∷ rgb 0 175 95
    ∷ rgb 0 175 135
    ∷ rgb 0 175 175
    ∷ rgb 0 175 215
    ∷ rgb 0 175 255
    ∷ rgb 0 215 0
    ∷ rgb 0 215 95
    ∷ rgb 0 215 135
    ∷ rgb 0 215 175
    ∷ rgb 0 215 215
    ∷ rgb 0 215 255
    ∷ rgb 0 255 0
    ∷ rgb 0 255 95
    ∷ rgb 0 255 135
    ∷ rgb 0 255 175
    ∷ rgb 0 255 215
    ∷ rgb 0 255 255
    ∷ []

-- Entries 52 to 87.
abbrev pub cube_red_95 : List Color
cube_red_95 =
    rgb 95 0 0
    ∷ rgb 95 0 95
    ∷ rgb 95 0 135
    ∷ rgb 95 0 175
    ∷ rgb 95 0 215
    ∷ rgb 95 0 255
    ∷ rgb 95 95 0
    ∷ rgb 95 95 95
    ∷ rgb 95 95 135
    ∷ rgb 95 95 175
    ∷ rgb 95 95 215
    ∷ rgb 95 95 255
    ∷ rgb 95 135 0
    ∷ rgb 95 135 95
    ∷ rgb 95 135 135
    ∷ rgb 95 135 175
    ∷ rgb 95 135 215
    ∷ rgb 95 135 255
    ∷ rgb 95 175 0
    ∷ rgb 95 175 95
    ∷ rgb 95 175 135
    ∷ rgb 95 175 175
    ∷ rgb 95 175 215
    ∷ rgb 95 175 255
    ∷ rgb 95 215 0
    ∷ rgb 95 215 95
    ∷ rgb 95 215 135
    ∷ rgb 95 215 175
    ∷ rgb 95 215 215
    ∷ rgb 95 215 255
    ∷ rgb 95 255 0
    ∷ rgb 95 255 95
    ∷ rgb 95 255 135
    ∷ rgb 95 255 175
    ∷ rgb 95 255 215
    ∷ rgb 95 255 255
    ∷ []

-- Entries 88 to 123.
abbrev pub cube_red_135 : List Color
cube_red_135 =
    rgb 135 0 0
    ∷ rgb 135 0 95
    ∷ rgb 135 0 135
    ∷ rgb 135 0 175
    ∷ rgb 135 0 215
    ∷ rgb 135 0 255
    ∷ rgb 135 95 0
    ∷ rgb 135 95 95
    ∷ rgb 135 95 135
    ∷ rgb 135 95 175
    ∷ rgb 135 95 215
    ∷ rgb 135 95 255
    ∷ rgb 135 135 0
    ∷ rgb 135 135 95
    ∷ rgb 135 135 135
    ∷ rgb 135 135 175
    ∷ rgb 135 135 215
    ∷ rgb 135 135 255
    ∷ rgb 135 175 0
    ∷ rgb 135 175 95
    ∷ rgb 135 175 135
    ∷ rgb 135 175 175
    ∷ rgb 135 175 215
    ∷ rgb 135 175 255
    ∷ rgb 135 215 0
    ∷ rgb 135 215 95
    ∷ rgb 135 215 135
    ∷ rgb 135 215 175
    ∷ rgb 135 215 215
    ∷ rgb 135 215 255
    ∷ rgb 135 255 0
    ∷ rgb 135 255 95
    ∷ rgb 135 255 135
    ∷ rgb 135 255 175
    ∷ rgb 135 255 215
    ∷ rgb 135 255 255
    ∷ []

-- Entries 124 to 159.
abbrev pub cube_red_175 : List Color
cube_red_175 =
    rgb 175 0 0
    ∷ rgb 175 0 95
    ∷ rgb 175 0 135
    ∷ rgb 175 0 175
    ∷ rgb 175 0 215
    ∷ rgb 175 0 255
    ∷ rgb 175 95 0
    ∷ rgb 175 95 95
    ∷ rgb 175 95 135
    ∷ rgb 175 95 175
    ∷ rgb 175 95 215
    ∷ rgb 175 95 255
    ∷ rgb 175 135 0
    ∷ rgb 175 135 95
    ∷ rgb 175 135 135
    ∷ rgb 175 135 175
    ∷ rgb 175 135 215
    ∷ rgb 175 135 255
    ∷ rgb 175 175 0
    ∷ rgb 175 175 95
    ∷ rgb 175 175 135
    ∷ rgb 175 175 175
    ∷ rgb 175 175 215
    ∷ rgb 175 175 255
    ∷ rgb 175 215 0
    ∷ rgb 175 215 95
    ∷ rgb 175 215 135
    ∷ rgb 175 215 175
    ∷ rgb 175 215 215
    ∷ rgb 175 215 255
    ∷ rgb 175 255 0
    ∷ rgb 175 255 95
    ∷ rgb 175 255 135
    ∷ rgb 175 255 175
    ∷ rgb 175 255 215
    ∷ rgb 175 255 255
    ∷ []

-- Entries 160 to 195.
abbrev pub cube_red_215 : List Color
cube_red_215 =
    rgb 215 0 0
    ∷ rgb 215 0 95
    ∷ rgb 215 0 135
    ∷ rgb 215 0 175
    ∷ rgb 215 0 215
    ∷ rgb 215 0 255
    ∷ rgb 215 95 0
    ∷ rgb 215 95 95
    ∷ rgb 215 95 135
    ∷ rgb 215 95 175
    ∷ rgb 215 95 215
    ∷ rgb 215 95 255
    ∷ rgb 215 135 0
    ∷ rgb 215 135 95
    ∷ rgb 215 135 135
    ∷ rgb 215 135 175
    ∷ rgb 215 135 215
    ∷ rgb 215 135 255
    ∷ rgb 215 175 0
    ∷ rgb 215 175 95
    ∷ rgb 215 175 135
    ∷ rgb 215 175 175
    ∷ rgb 215 175 215
    ∷ rgb 215 175 255
    ∷ rgb 215 215 0
    ∷ rgb 215 215 95
    ∷ rgb 215 215 135
    ∷ rgb 215 215 175
    ∷ rgb 215 215 215
    ∷ rgb 215 215 255
    ∷ rgb 215 255 0
    ∷ rgb 215 255 95
    ∷ rgb 215 255 135
    ∷ rgb 215 255 175
    ∷ rgb 215 255 215
    ∷ rgb 215 255 255
    ∷ []

-- Entries 196 to 231.
abbrev pub cube_red_255 : List Color
cube_red_255 =
    rgb 255 0 0
    ∷ rgb 255 0 95
    ∷ rgb 255 0 135
    ∷ rgb 255 0 175
    ∷ rgb 255 0 215
    ∷ rgb 255 0 255
    ∷ rgb 255 95 0
    ∷ rgb 255 95 95
    ∷ rgb 255 95 135
    ∷ rgb 255 95 175
    ∷ rgb 255 95 215
    ∷ rgb 255 95 255
    ∷ rgb 255 135 0
    ∷ rgb 255 135 95
    ∷ rgb 255 135 135
    ∷ rgb 255 135 175
    ∷ rgb 255 135 215
    ∷ rgb 255 135 255
    ∷ rgb 255 175 0
    ∷ rgb 255 175 95
    ∷ rgb 255 175 135
    ∷ rgb 255 175 175
    ∷ rgb 255 175 215
    ∷ rgb 255 175 255
    ∷ rgb 255 215 0
    ∷ rgb 255 215 95
    ∷ rgb 255 215 135
    ∷ rgb 255 215 175
    ∷ rgb 255 215 215
    ∷ rgb 255 215 255
    ∷ rgb 255 255 0
    ∷ rgb 255 255 95
    ∷ rgb 255 255 135
    ∷ rgb 255 255 175
    ∷ rgb 255 255 215
    ∷ rgb 255 255 255
    ∷ []

-- Entries 232 to 255.
abbrev pub greys : List Color
greys =
    rgb 8 8 8
    ∷ rgb 18 18 18
    ∷ rgb 28 28 28
    ∷ rgb 38 38 38
    ∷ rgb 48 48 48
    ∷ rgb 58 58 58
    ∷ rgb 68 68 68
    ∷ rgb 78 78 78
    ∷ rgb 88 88 88
    ∷ rgb 98 98 98
    ∷ rgb 108 108 108
    ∷ rgb 118 118 118
    ∷ rgb 128 128 128
    ∷ rgb 138 138 138
    ∷ rgb 148 148 148
    ∷ rgb 158 158 158
    ∷ rgb 168 168 168
    ∷ rgb 178 178 178
    ∷ rgb 188 188 188
    ∷ rgb 198 198 198
    ∷ rgb 208 208 208
    ∷ rgb 218 218 218
    ∷ rgb 228 228 228
    ∷ rgb 238 238 238
    ∷ []

-- `defaultPalette`
abbrev pub default_palette : List Color
default_palette =
    system_colors ++ cube_no_red ++ cube_red_95 ++ cube_red_135 ++ cube_red_175 ++ cube_red_215
    ++ cube_red_255 ++ greys
