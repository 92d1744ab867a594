-- ===== src/Charset.antt =====
-- `VTerm::translate_char` of src/lib/charsetmap.cpp.
pub mod Tables
use fbterm.Prelude.{ℕ, List, leb, if◌then◌else◌, get_or}
use fbterm.Vterm.Types.{CharsetMap, lat1_map, graf_map, ibmpc_map, user_map}
use Tables.{lat1_translation, graf_translation, ibmpc_translation, user_translation}

-- `translations[m]`
unfoldable pub translations : CharsetMap → List ℕ
translations lat1_map = lat1_translation
translations graf_map = graf_translation
translations ibmpc_map = ibmpc_translation
translations user_map = user_translation

-- `VTerm::translate_char`, with the current `charset`.
unfoldable pub translate_char : CharsetMap → ℕ → ℕ
unfolding translations
translate_char m c = if leb 256 c then c else get_or (translations m) c 0
