-- ===== src/Screen/Text/Glyphs.antt =====
-- `drawText` draws each character once, in order and in its place.
use fbterm.Prelude.Lists.{++-assoc, ++_nil}
use fbterm.Prelude.{
  ℕ, zero, suc, ◌+◌, ◌-◌, ◌*◌, ◌≤◌, ◌≡◌, refl, sym, ap, ◌∙◌, Bool, inl, inr, Bool-cases, List, [],
  ◌∷◌, ◌++◌, ◌==◌, if◌then◌else◌, Store, arith,
}
use fbterm.Screen.Text.{
  Part, glyph, blank, draw_glyphs, Waiting, nothing, spaces, glyphs, flush, at_space, at_glyph,
  text_loop, draw_text,
}

-- The glyphs among the parts.
unfoldable pub glyphs_of : List Part → List Part
glyphs_of [] = []
glyphs_of (glyph x c d ∷ ps) = glyph x c d ∷ glyphs_of ps
glyphs_of (blank x w ∷ ps) = glyphs_of ps

-- The glyphs of the `n` characters from the index `i` on, of which the first stands at `x`: a space has
-- none, and takes one column.
unfoldable pub glyphs_at : ℕ → ℕ → ℕ → ℕ → Store ℕ → Store Bool → List Part
glyphs_at zero x i fw text dw = []
glyphs_at (suc n) x i fw text dw =
    if text i == b' '
    then glyphs_at n (x + fw) (i + 1) fw text dw
    else glyph x (text i) (dw i)
      ∷ glyphs_at n (x + (if dw i then fw * 2 else fw)) (i + 1) fw text dw

-- The column behind `n` characters.
column_behind : ℕ → ℕ → ℕ → ℕ → Store Bool → ℕ
column_behind zero x i fw dw = x
column_behind (suc n) x i fw dw = column_behind n (x + (if dw i then fw * 2 else fw)) (i + 1) fw dw

glyphs_of-++ : (ps qs : List Part) → glyphs_of (ps ++ qs) ≡ glyphs_of ps ++ glyphs_of qs
unfolding glyphs_of
glyphs_of-++ [] qs = refl
glyphs_of-++ (glyph x c d ∷ ps) qs = ap (λ l. glyph x c d ∷ l) (glyphs_of-++ ps qs)
glyphs_of-++ (blank x w ∷ ps) qs = glyphs_of-++ ps qs

glyphs_of-draw_glyphs :
    (n fw x i : ℕ) (text : Store ℕ) (dw : Store Bool)
    → glyphs_of (draw_glyphs n fw x i text dw) ≡ draw_glyphs n fw x i text dw
unfolding glyphs_of draw_glyphs
glyphs_of-draw_glyphs zero fw x i text dw = refl
glyphs_of-draw_glyphs (suc n) fw x i text dw =
    ap (λ l. glyph x (text i) (dw i) ∷ l)
      (glyphs_of-draw_glyphs n fw (x + (if dw i then fw * 2 else fw)) (i + 1) text dw)

abbrev advance : Bool → ℕ → ℕ
advance d fw = if d then fw * 2 else fw

column_behind-suc :
    (n x i fw : ℕ) (dw : Store Bool)
    → column_behind (suc n) x i fw dw ≡ column_behind n x i fw dw + advance (dw (i + n)) fw
unfolding column_behind
column_behind-suc zero x i fw dw =
    let here : i ≡ i + 0 = omega arith in ap (λ j. x + advance (dw j) fw) here
column_behind-suc (suc n) x i fw dw =
    let there : i + 1 + n ≡ i + suc n = omega arith in
    column_behind-suc n (x + advance (dw i) fw) (i + 1) fw dw
    ∙ ap (λ j. column_behind n (x + advance (dw i) fw) (i + 1) fw dw + advance (dw j) fw) there

-- One more character.
draw_glyphs-suc :
    (n fw x i : ℕ) (text : Store ℕ) (dw : Store Bool)
    → draw_glyphs (suc n) fw x i text dw
      ≡ draw_glyphs n fw x i text dw
        ++ glyph (column_behind n x i fw dw) (text (i + n)) (dw (i + n)) ∷ []
unfolding draw_glyphs column_behind
draw_glyphs-suc zero fw x i text dw =
    let here : i ≡ i + 0 = omega arith in ap (λ j. glyph x (text j) (dw j) ∷ []) here
draw_glyphs-suc (suc n) fw x i text dw =
    let x' = x + advance (dw i) fw in
    let there : i + 1 + n ≡ i + suc n = omega arith in
    ap (λ l. glyph x (text i) (dw i) ∷ l)
      (draw_glyphs-suc n fw x' (i + 1) text dw
        ∙ ap
            (λ j.
              draw_glyphs n fw x' (i + 1) text dw
              ++ glyph (column_behind n x' (i + 1) fw dw) (text j) (dw j) ∷ [])
            there)

module _ (fw : ℕ) (text : Store ℕ) (dw : Store Bool) where
  -- What waits is the text before the index `i`, which ends at the column `x`.
  Waits : Waiting → ℕ → ℕ → ℕ → Type 0
  Waits nothing n x i = Unit
  Waits (spaces startx) n x i = Unit
  Waits (glyphs startx startnum starttext) n x i =
      (n ≤ startnum)
      × (starttext + (startnum - n) ≡ i)
      × (x ≡ column_behind (startnum - n) startx starttext fw dw)

  kept_glyphs : Waiting → ℕ → List Part
  kept_glyphs nothing n = []
  kept_glyphs (spaces startx) n = []
  kept_glyphs (glyphs startx startnum starttext) n =
      draw_glyphs (startnum - n) fw startx starttext text dw

  glyphs_of-flush : (v : Waiting) (n x : ℕ) → glyphs_of (flush v n x fw text dw) ≡ kept_glyphs v n
  unfolding glyphs_of flush kept_glyphs
  glyphs_of-flush nothing n x = refl
  glyphs_of-flush (spaces startx) n x = refl
  glyphs_of-flush (glyphs startx startnum starttext) n x =
      glyphs_of-draw_glyphs _ fw startx starttext text dw

  -- Behind a space, only spaces wait.
  at_space-kept_glyphs :
      (v : Waiting) (n x i : ℕ)
      → (glyphs_of (at_space v (suc n) x fw text dw).0 ≡ kept_glyphs v (suc n))
        × Waits (at_space v (suc n) x fw text dw).1 n (x + fw) (i + 1)
        × (kept_glyphs (at_space v (suc n) x fw text dw).1 n ≡ [])
  unfolding at_space kept_glyphs Waits glyphs_of
  at_space-kept_glyphs nothing n x i = (refl, tt, refl)
  at_space-kept_glyphs (spaces startx) n x i = (refl, tt, refl)
  at_space-kept_glyphs (glyphs startx startnum starttext) n x i =
      (glyphs_of-flush (glyphs startx startnum starttext) (suc n) x, tt, refl)

  begins :
      (n x i : ℕ)
      → Waits (glyphs x (suc n) i) n (x + advance (dw i) fw) (i + 1)
        × (kept_glyphs (glyphs x (suc n) i) n ≡ glyph x (text i) (dw i) ∷ [])
  unfolding Waits kept_glyphs column_behind draw_glyphs
  begins n x i = let one : suc n - n ≡ 1 = omega arith in rw one ((omega arith, refl, refl), refl)

  goes_on :
      (startx startnum starttext n x i : ℕ)
      → Waits (glyphs startx startnum starttext) (suc n) x i
      → Waits (glyphs startx startnum starttext) n (x + advance (dw i) fw) (i + 1)
        × (kept_glyphs (glyphs startx startnum starttext) n
            ≡ kept_glyphs (glyphs startx startnum starttext) (suc n)
              ++ glyph x (text i) (dw i) ∷ [])
  unfolding Waits kept_glyphs
  goes_on startx startnum starttext n x i (a, b, c) =
      let k = startnum - suc n in
      let more : startnum - n ≡ suc k = omega arith in
      let at : starttext + k ≡ i = b in
      let behind : column_behind (suc k) startx starttext fw dw ≡ x + advance (dw i) fw =
        column_behind-suc k startx starttext fw dw
        ∙ ap (λ j. column_behind k startx starttext fw dw + advance (dw j) fw) at
        ∙ ap (λ y. y + advance (dw i) fw) (sym c) in
      (
        (
          omega arith,
          omega (arith, more),
          sym behind ∙ ap (λ m. column_behind m startx starttext fw dw) (sym more),
        ),
        ap (λ m. draw_glyphs m fw startx starttext text dw) more
            ∙ draw_glyphs-suc k fw startx starttext text dw
            ∙ ap
                (λ y.
                  draw_glyphs k fw startx starttext text dw
                  ++ glyph y (text (starttext + k)) (dw (starttext + k)) ∷ [])
                (sym c)
            ∙ ap (λ j. draw_glyphs k fw startx starttext text dw ++ glyph x (text j) (dw j) ∷ [])
                at,
      )

  -- Behind another character, it waits, with the text before it.
  at_glyph-kept_glyphs :
      (v : Waiting) (n x i : ℕ)
      → Waits v (suc n) x i
      → Waits (at_glyph v (suc n) x i fw text dw).1 n (x + advance (dw i) fw) (i + 1)
        × (glyphs_of (at_glyph v (suc n) x i fw text dw).0
              ++ kept_glyphs (at_glyph v (suc n) x i fw text dw).1 n
            ≡ kept_glyphs v (suc n) ++ glyph x (text i) (dw i) ∷ [])
  unfolding at_glyph kept_glyphs Waits glyphs_of
  at_glyph-kept_glyphs nothing n x i w = begins n x i
  at_glyph-kept_glyphs (spaces startx) n x i w =
      let (a, b) = begins n x i in
      (
        a,
        ap (λ l. l ++ kept_glyphs (glyphs x (suc n) i) n)
              (glyphs_of-flush (spaces startx) (suc n) x)
            ∙ b,
      )
  at_glyph-kept_glyphs (glyphs startx startnum starttext) n x i w =
      goes_on startx startnum starttext n x i w

  text_loop-glyphs_at :
      (n x i : ℕ) (v : Waiting)
      → Waits v n x i
      → glyphs_of (text_loop n x i fw v text dw) ≡ kept_glyphs v n ++ glyphs_at n x i fw text dw
  unfolding text_loop glyphs_at
  text_loop-glyphs_at zero x i v w = glyphs_of-flush v 0 x ∙ sym (++_nil (kept_glyphs v 0))
  text_loop-glyphs_at (suc n) x i v w = elim (Bool-cases (text i == b' ')) [
    | inl y ↦
        let (a, b, c) = at_space-kept_glyphs v n x i in
        let (drawn, next) = at_space v (suc n) x fw text dw in
        let rest = text_loop n (x + fw) (i + 1) fw next text dw in
        let behind = glyphs_at n (x + fw) (i + 1) fw text dw in
        rw y (
          glyphs_of-++ drawn rest
          ∙ ap (λ l. l ++ glyphs_of rest) a
          ∙ ap (λ l. kept_glyphs v (suc n) ++ l)
              (text_loop-glyphs_at n (x + fw) (i + 1) next b ∙ ap (λ l. l ++ behind) c))
    | inr y ↦
        let (a, b) = at_glyph-kept_glyphs v n x i w in
        let (drawn, next) = at_glyph v (suc n) x i fw text dw in
        let x' = x + advance (dw i) fw in
        let rest = text_loop n x' (i + 1) fw next text dw in
        let behind = glyphs_at n x' (i + 1) fw text dw in
        let moved : (if dw i then x + fw else x) + fw ≡ x' = ground arith in
        rw y (
          ap (λ z. glyphs_of (drawn ++ text_loop n z (i + 1) fw next text dw)) moved
          ∙ glyphs_of-++ drawn rest
          ∙ ap (λ l. glyphs_of drawn ++ l) (text_loop-glyphs_at n x' (i + 1) next a)
          ∙ sym (++-assoc (glyphs_of drawn) (kept_glyphs next n) behind)
          ∙ ap (λ l. l ++ behind) b
          ∙ ++-assoc (kept_glyphs v (suc n)) (glyph x (text i) (dw i) ∷ []) behind)
  ]

-- The glyphs that `drawText` draws are those of the characters other than spaces, each once, in order,
-- and behind the columns of the characters before it.
pub draw_text-glyphs_at :
    (fw x num : ℕ) (text : Store ℕ) (dw : Store Bool)
    → glyphs_of (draw_text fw x num text dw) ≡ glyphs_at num x 0 fw text dw
unfolding draw_text Waits kept_glyphs
draw_text-glyphs_at fw x num text dw = text_loop-glyphs_at fw text dw num x 0 nothing tt
