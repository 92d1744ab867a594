-- ===== src/Shell/Text.antt =====
-- `utf16_to_utf8` of src/lib/shell.cpp, which writes the selected text for the clipboard.
use fbterm.Prelude.{ℕ, ◌+◌, ◌/◌, ◌%◌, List, [], ◌∷◌, ◌++◌, ltb, if◌then◌else◌}

-- The bytes of one code. The u8 or u16 tests `code >> 11` and `code >> 7` are those for not 0.
unfoldable pub utf8_of : ℕ → List ℕ
utf8_of code =
    if ltb 0 (code / 2048)
    then (0xe0 + code / 4096) ∷ (0x80 + code / 64 % 64) ∷ (0x80 + code % 64) ∷ []
    else if ltb 0 (code / 128)
    then (0xc0 + code / 64 % 32) ∷ (0x80 + code % 64) ∷ []
    else code ∷ []

-- `utf16_to_utf8`
unfoldable pub utf16_to_utf8 : List ℕ → List ℕ
utf16_to_utf8 [] = []
utf16_to_utf8 (code ∷ codes) = utf8_of code ++ utf16_to_utf8 codes
