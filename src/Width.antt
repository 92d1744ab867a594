-- ===== src/Width.antt =====
-- Character widths: src/lib/wcwidth.cpp.
pub mod Tables
pub mod Search
pub mod Columns
mod Tests
use fbterm.Prelude.{
  ℕ, ◌+◌, ◌-◌, ℤ, pos, negsuc, Bool, true, false, ◌&&◌, ◌||◌, not, List, ltb, leb, ◌==◌,
  if◌then◌else◌, within,
}
use Tables.{combining, ambiguous}
use Search.{bisearch}

-- `mk_wcwidth`
unfoldable pub mk_wcwidth : ℕ → ℤ
unfolding bisearch
mk_wcwidth ucs =
    if ucs == 0
    then pos 0
    else if ltb ucs 32 || within 0x7f 0x9f ucs
    then negsuc 0
    else if bisearch ucs combining
    then pos 0
    else if leb 0x1100 ucs
        && (leb ucs 0x115f
            || ucs == 0x2329
            || ucs == 0x232a
            || within 0x2e80 0xa4cf ucs && not (ucs == 0x303f)
            || within 0xac00 0xd7a3 ucs
            || within 0xf900 0xfaff ucs
            || within 0xfe10 0xfe19 ucs
            || within 0xfe30 0xfe6f ucs
            || within 0xff00 0xff60 ucs
            || within 0xffe0 0xffe6 ucs
            || within 0x20000 0x2fffd ucs
            || within 0x30000 0x3fffd ucs)
    then pos 2
    else pos 1

-- `mk_wcwidth_cjk`
unfoldable pub mk_wcwidth_cjk : ℕ → ℤ
unfolding mk_wcwidth bisearch
mk_wcwidth_cjk ucs = if bisearch ucs ambiguous then pos 2 else mk_wcwidth ucs

-- `VTerm::charWidth`
unfoldable pub char_width : Bool → ℕ → ℤ
unfolding mk_wcwidth mk_wcwidth_cjk
char_width ambiguous_wide ucs = if ambiguous_wide then mk_wcwidth_cjk ucs else mk_wcwidth ucs
