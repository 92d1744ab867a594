-- ===== src/Width/Tests.antt =====
-- Widths of some characters, and the theorems applied to them.
use fbterm.Prelude.{◌≡◌, ◌⊎◌, refl, pos, true, false, arith}
use fbterm.Width.Tables.{combining, ambiguous}
use fbterm.Width.Search.{bisearch}
use fbterm.Width.Search.Lookup.{covers, bisearch-eq-covers, combining-IsOrdered}
use fbterm.Width.Columns.{char_width-listed}
use fbterm.Width.{char_width}

bisearch-eq-covers_example : bisearch 0x301 combining ≡ covers combining 0x301
bisearch-eq-covers_example = bisearch-eq-covers combining 0x301 combining-IsOrdered (omega arith)

char_width-listed_example :
    (covers combining 0x301 ≡ true → char_width true 0x301 ≡ pos 0)
    × (covers ambiguous 0x301 ≡ true → char_width true 0x301 ≡ pos 2)
    × (covers ambiguous 0x301 ≡ false → char_width true 0x301 ≡ char_width false 0x301)
    × (covers combining 0x301 ≡ false
        → (char_width true 0x301 ≡ pos 1) ⊎ (char_width true 0x301 ≡ pos 2))
char_width-listed_example = char_width-listed true 0x301 (omega arith)

width_of_han : char_width false 0x4e2d ≡ pos 2
unfolding char_width
width_of_han = refl
