-- ===== src/Shell/Select/Size.antt =====
-- The size of the buffers of `endTextSelect`.
use fbterm.Prelude.Lists.{length-++}
use fbterm.Prelude.{
  ℕ, zero, suc, ◌+◌, ◌-◌, ◌*◌, ◌/◌, ◌%◌, ◌≤◌, ◌<◌, ◌≡◌, ap, ◌∙◌, true, false, inl, inr, Bool-cases,
  List, [], ◌∷◌, length, leb, ◌==◌, if◌then◌else◌, u16, arith,
}
use native.Mathlib.Nat.{mod-lt, div-add-mod', div-lt_iff_lt-mul}
use fbterm.Vterm.Types.{is_left}
use fbterm.Vterm.State.{Term, cell_at}
use fbterm.Shell.Text.{utf8_of, utf16_to_utf8}
use fbterm.Shell.Select.{row_codes, rows_codes, codes_between}

utf8_of-size : (code : ℕ) → length (utf8_of code) ≤ 3
unfolding utf8_of
utf8_of-size code = ground arith

-- A code takes three bytes at most.
pub utf16_to_utf8-size : (codes : List ℕ) → length (utf16_to_utf8 codes) ≤ 3 * length codes
unfolding utf16_to_utf8
utf16_to_utf8-size [] = omega arith
utf16_to_utf8-size (c ∷ cs) =
    omega (arith, length-++ (utf8_of c) (utf16_to_utf8 cs), utf8_of-size c, utf16_to_utf8-size cs)

row_codes-size : (n x end y : ℕ) (t : Term) → length (row_codes n x end y t) ≤ end + 1 - x
unfolding row_codes
row_codes-size zero x end y t = omega arith
row_codes-size (suc n) x end y t =
    let c = cell_at t x y in
    let rest = row_codes-size n (if is_left c.attr.type then x + 2 else x + 1) end y t in
    ground (arith, rest)

-- The positions of `n` rows, of which the last ends in column `ex`, and the first begins in column `x`.
abbrev room : ℕ → ℕ → ℕ → ℕ → ℕ
room zero width x ex = 0
room (suc n) width x ex = (n * width + ex + 1) - x

rows_codes-size :
    (n x y ex ey : ℕ) (t : Term)
    → ex < t.screen.width
    → x ≤ t.screen.width
    → y + n ≡ ey + 1
    → length (rows_codes n x y ex ey t) ≤ room n t.screen.width x ex
unfolding rows_codes
rows_codes-size zero x y ex ey t a b e = omega arith
rows_codes-size (suc zero) x y ex ey t a b e =
    let here = row_codes-size (ex + 1 - x) x ex y t in
    let both = length-++ (row_codes (ex + 1 - x) x ex y t) [] in
    let last : (y == ey) ≡ true = ground arith in rw last (omega (arith, here, both))
rows_codes-size (suc (suc n)) x y ex ey t a b e =
    let end = t.screen.width - 1 in
    let here = row_codes-size (end + 1 - x) x end y t in
    let below = rows_codes-size (suc n) 0 (y + 1) ex ey t a (omega arith) (omega arith) in
    let both =
      length-++ (row_codes (end + 1 - x) x end y t) (rows_codes (suc n) 0 (y + 1) ex ey t) in
    let more : (y == ey) ≡ false = ground arith in
    let product : suc n * t.screen.width ≡ n * t.screen.width + t.screen.width = omega arith in
    rw more (omega (arith, here, below, both, product))

room_lem :
    (d a width x ex : ℕ) → room (suc d) width x ex ≡ (d + a) * width + ex + 1 - (a * width + x)
room_lem d a width x ex = omega arith

ordered : (start end width : ℕ) → 0 < width → start ≤ end → start / width ≤ end / width
ordered start end width pos le = elim (Bool-cases (leb (start / width) (end / width))) [
  | inl h ↦ ground arith
  | inr h ↦
      let less : end / width < start / width = ground arith in
      absurd (omega (arith, (div-lt_iff_lt-mul pos).0 less, div-add-mod' start width))
]

-- On a screen of some columns, fewer than 65536, the codes between two positions of rows below 65536
-- fit in the buffer, which has one place for each position.
pub codes_between-size :
    (start end : ℕ) (t : Term)
    → 0 < t.screen.width
    → t.screen.width < 65536
    → start ≤ end
    → end / t.screen.width < 65536
    → length (codes_between start end t) ≤ end + 1 - start
unfolding codes_between
codes_between-size start end t pos narrow le low =
    let width = t.screen.width in
    let sx_lt = mod-lt start pos in
    let ex_lt = mod-lt end pos in
    let at_start = div-add-mod' start width in
    let at_end = div-add-mod' end width in
    let down : start / width ≤ end / width = ordered start end width pos le in
    let rows =
      rows_codes-size (end / width + 1 - start / width) (start % width) (start / width)
        (end % width) (end / width) t ex_lt (omega (arith, sx_lt)) (omega (arith, down)) in
    let step : end / width + 1 - start / width ≡ suc (end / width - start / width) =
      omega (arith, down) in
    let whole =
      room_lem (end / width - start / width) (start / width) width (start % width) (end % width) in
    let back : end / width - start / width + start / width ≡ end / width = omega (arith, down) in
    let a : u16 (start / width) ≡ start / width = omega (arith, down) in
    let b : u16 (end / width) ≡ end / width = omega arith in
    let c : u16 (start % width) ≡ start % width = omega (arith, sx_lt) in
    let d : u16 (end % width) ≡ end % width = omega (arith, ex_lt) in
    let bound : room (end / width + 1 - start / width) width (start % width) (end % width)
        ≡ end + 1 - start =
      ap (λ n. room n width (start % width) (end % width)) step
      ∙ whole
      ∙ ap (λ n. n * width + end % width + 1 - (start / width * width + start % width)) back
      ∙ ap (λ n. n + 1 - (start / width * width + start % width)) at_end
      ∙ ap (λ n. end + 1 - n) at_start in
    rw (a, b, c, d) (omega (arith, rows, bound))
