-- ===== src/Io/Translate/Ends.antt =====
-- The loop of `translate` comes to an end.
use fbterm.Prelude.{
  ℕ, zero, suc, ◌-◌, ◌≤◌, ◌<◌, ◌≡◌, ◌⊎◌, refl, Bool, true, false, inl, inr, List, [], ◌∷◌, length,
  if_both, arith,
}
use fbterm.Io.Write.{dropped, is_done}
use fbterm.Io.Translate.{
  Ending, converted, full, illegal, incomplete, Conversion, Translated, pass_on, after_call,
  translate_loop,
}

-- The call stops at what it cannot convert.
unfoldable pub stops : Ending → Bool
stops illegal = true
stops incomplete = true
stops _ = false

-- A call that is given bytes takes one at least, or stops at what it cannot convert.
unfoldable pub Advances : (ℕ → List ℕ → Conversion) → Type 0
Advances iconv =
    (round : ℕ) (b : ℕ) (bs : List ℕ)
    → (0 < (iconv round (b ∷ bs)).used) ⊎ (stops (iconv round (b ∷ bs)).ending ≡ true)

length-dropped : {A : Type 0} (n : ℕ) (xs : List A) → length (dropped n xs) ≡ length xs - n
length-dropped zero xs = omega arith
length-dropped (suc n) [] = omega arith
length-dropped (suc n) (x ∷ xs) = omega (arith, length-dropped n xs)

pass_on-ended : (piece : List ℕ) (r : Translated) → r.ended ≡ true → (pass_on piece r).ended ≡ true
pass_on-ended piece r h = if_both (λ (v : Translated). v.ended ≡ true) (is_done piece) h h

after_call-ended :
    (e : Ending) (left : List ℕ) (rest skipped : Translated)
    → (stops e ≡ false → rest.ended ≡ true)
    → skipped.ended ≡ true
    → (after_call e left rest skipped).ended ≡ true
unfolding after_call stops
after_call-ended converted left rest skipped g s = g refl
after_call-ended full left rest skipped g s = g refl
after_call-ended illegal left rest skipped g s = pass_on-ended (b'?' ∷ []) skipped s
after_call-ended incomplete left rest skipped g s = refl

-- With as many rounds as there are bytes, the loop ends, if each call of `iconv` takes a byte or stops at
-- what it cannot convert.
pub translate_loop-ended :
    (n : ℕ) (iconv : ℕ → List ℕ → Conversion) (buf : List ℕ)
    → Advances iconv
    → length buf ≤ n
    → (translate_loop n iconv buf).ended ≡ true
unfolding translate_loop Advances
translate_loop-ended zero iconv [] adv b = refl
translate_loop-ended zero iconv (x ∷ xs) adv b = absurd (omega arith)
translate_loop-ended (suc n) iconv [] adv b = refl
translate_loop-ended (suc n) iconv (x ∷ xs) adv b =
    let c = iconv n (x ∷ xs) in
    let left = dropped c.used (x ∷ xs) in
    let short = length-dropped c.used (x ∷ xs) in
    let goes_on : stops c.ending ≡ false → (translate_loop n iconv left).ended ≡ true = λ e.
      elim (adv n x xs) [
        | inl some ↦ translate_loop-ended n iconv left adv (omega (arith, short, some))
        | inr s ↦ absurd (cc (e, s))
      ] in
    pass_on-ended c.output _ (
      after_call-ended c.ending left _ _ goes_on (
        translate_loop-ended n iconv (dropped 1 left) adv
          (omega (arith, short, length-dropped 1 left))))
