-- ===== src/Shell/Select/Word.antt =====
-- The word that a double click selects.
use fbterm.Prelude.{
  ℕ, zero, suc, ◌+◌, ◌-◌, ◌*◌, ◌≤◌, ◌<◌, ◌≡◌, ◌≢◌, refl, ap, ◌∙◌, Bool, true, false, not, xor, inl,
  inr, Bool-cases, leb, Store, if_cases, arith,
}
use fbterm.Shell.Select.{Shell, w, char_code, inword, word_start, word_end, auto_text_select}

xor_same : (a b : Bool) → xor a b ≡ false → b ≡ a
unfolding xor
xor_same a b h = ground arith

xor_other : (a b : Bool) → xor a b ≡ true → b ≡ not a
unfolding xor
xor_other a b h = ground arith

module _ (lut : Store ℕ) (inw : Bool) (char_at : ℕ → ℕ) where
  -- From `sx` down to the column `a`, all columns are of the kind `inw`, but for column 0, which is not
  -- looked at, and the one before `a` is not.
  record StartsAt (sx a : ℕ) : Type 0 where
    low : a ≤ sx + 1
    inside : (i : ℕ) → a ≤ i → i ≤ sx → i ≢ 0 → inword lut (char_at i) ≡ inw
    before : a ≢ 0 → inword lut (char_at (a - 1)) ≡ not inw

  word_start-StartsAt : (sx : ℕ) → StartsAt sx (word_start lut inw (char_at sx) char_at sx)
  unfolding word_start
  word_start-StartsAt zero = record {
    low = omega arith;
    inside = λ i a b n. absurd (n (omega arith));
    before = λ n. absurd (n refl);
  }
  word_start-StartsAt (suc sx) =
      let rest = word_start-StartsAt sx in
      let here = inword lut (char_at (suc sx)) in
      if_cases (StartsAt (suc sx)) (xor inw here)
        (λ y. record {
          low = omega arith;
          inside = λ i a b n. absurd (omega arith);
          before = λ n.
              let back : suc sx + 1 - 1 ≡ suc sx = omega arith in
              ap (λ j. inword lut (char_at j)) back ∙ xor_other inw here y;
        })
        (λ y. record {
          low = omega (arith, rest.low);
          inside = λ i a b n. elim (Bool-cases (leb i sx)) [
            | inl h ↦ rest.inside i a (ground arith) n
            | inr h ↦
                let e : i ≡ suc sx = ground arith in
                ap (λ j. inword lut (char_at j)) e ∙ xor_same inw here y
          ];
          before = rest.before;
        })

  word_start_le :
      (sx : ℕ) → inword lut (char_at sx) ≡ inw → word_start lut inw (char_at sx) char_at sx ≤ sx
  unfolding word_start xor
  word_start_le zero e = omega arith
  word_start_le (suc sx) e = ground (arith, e, (word_start-StartsAt sx).low)

  -- From `ex` to the column `b`, all columns are of the kind `inw`, but for the last one, which is not
  -- looked at, and the one behind `b` is not.
  record EndsAt (last ex b : ℕ) : Type 0 where
    high : (ex ≤ b + 1) × (b ≤ last)
    inside : (i : ℕ) → ex ≤ i → i ≤ b → i ≢ last → inword lut (char_at i) ≡ inw
    behind : b ≢ last → inword lut (char_at (b + 1)) ≡ not inw

  word_end-EndsAt :
      (n last ex : ℕ)
      → ex + n ≡ last
      → (ex ≡ 0 → inword lut (char_at ex) ≡ inw)
      → EndsAt last ex (word_end n lut inw (char_at ex) char_at ex)
  unfolding word_end xor
  word_end-EndsAt zero last ex e z = record {
    high = (omega arith, omega arith);
    inside = λ i a b n. absurd (n (omega arith));
    behind = λ n. absurd (n (omega arith));
  }
  word_end-EndsAt (suc n) last ex e z =
      let rest = word_end-EndsAt n last (ex + 1) (omega arith) (λ o. absurd (omega arith)) in
      let here = inword lut (char_at ex) in
      if_cases (EndsAt last ex) (xor inw here)
        (λ y.
          let some_left : ex ≢ 0 = λ o. ground (arith, z o, xor_other inw here y) in
          let back : ex - 1 + 1 ≡ ex = omega (arith, some_left) in
          record {
            high = (omega arith, omega arith);
            inside = λ i a b m. absurd (omega (arith, some_left));
            behind = λ m. ap (λ j. inword lut (char_at j)) back ∙ xor_other inw here y;
          })
        (λ y. record {
          high = (omega (arith, rest.high), rest.high.1);
          inside = λ i a b m. elim (Bool-cases (leb (ex + 1) i)) [
            | inl h ↦ rest.inside i (ground arith) b m
            | inr h ↦
                let same : i ≡ ex = ground arith in
                ap (λ j. inword lut (char_at j)) same ∙ xor_same inw here y
          ];
          behind = rest.behind;
        })

  word_end_ge :
      (n ex : ℕ) → inword lut (char_at ex) ≡ inw → ex ≤ word_end n lut inw (char_at ex) char_at ex
  unfolding word_end xor
  word_end_ge zero ex e = omega arith
  word_end_ge (suc n) ex e =
      ground
        (arith, e, (word_end-EndsAt n (ex + 1 + n) (ex + 1) refl (λ o. absurd (omega arith))).high)

-- The stretch from column `a` to column `b` of a row with `n` columns is the word around column `x`.
pub record IsWord (lut : Store ℕ) (char_at : ℕ → ℕ) (n x a b : ℕ) : Type 0 where
  pub around : (a ≤ x) × (x ≤ b) × (b < n)
  pub inside :
      (i : ℕ) → a ≤ i → i ≤ b → i ≢ 0 → i + 1 ≢ n → inword lut (char_at i) ≡ inword lut (char_at x)
  pub before : a ≢ 0 → inword lut (char_at (a - 1)) ≡ not (inword lut (char_at x))
  pub behind : b + 1 ≢ n → inword lut (char_at (b + 1)) ≡ not (inword lut (char_at x))

-- A double click on a column of the screen selects, in its row, a stretch around that column, in which
-- all characters but those in the first and the last column of the screen are of its kind (within words
-- or not), and which characters of the other kind or the margins of the screen delimit.
pub auto_text_select-IsWord :
    (lut : Store ℕ) (x y : ℕ) (s : Shell)
    → x < w s
    → (a : ℕ) × (b : ℕ) × IsWord lut (λ i. char_code s.term i y) (w s) x a b
      × ((auto_text_select lut x y s).start ≡ y * w s + a)
      × ((auto_text_select lut x y s).end ≡ y * w s + b)
unfolding auto_text_select
auto_text_select-IsWord lut x y s h =
    let char_at = λ (i : ℕ). char_code s.term i y in
    let inw = inword lut (char_at x) in
    let start = word_start-StartsAt lut inw char_at x in
    let end = word_end-EndsAt lut inw char_at (w s - 1 - x) (w s - 1) x (omega arith) (λ o. refl) in
    let le = word_start_le lut inw char_at x refl in
    let ge = word_end_ge lut inw char_at (w s - 1 - x) x refl in
    let a = word_start lut inw (char_at x) char_at x in
    let b = word_end (w s - 1 - x) lut inw (char_at x) char_at x in
    (
      a,
      b,
      record {
        around = (le, ge, omega (arith, end.high));
        inside = λ i c d m n. elim (Bool-cases (leb i x)) [
          | inl y ↦ start.inside i c (ground arith) m
          | inr y ↦ end.inside i (ground arith) d (λ e. n (omega arith))
        ];
        before = start.before;
        behind = λ n. end.behind (λ e. n (omega arith));
      },
      refl,
      refl,
    )
