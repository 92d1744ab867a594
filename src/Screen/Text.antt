-- ===== src/Screen/Text.antt =====
-- src/screen.cpp: `drawText` and `drawGlyphs`, which split a text into glyphs and stretches of spaces.
pub mod Glyphs
use fbterm.Prelude.{
  ℕ, zero, suc, ◌+◌, ◌-◌, ◌*◌, Bool, List, [], ◌∷◌, ◌++◌, ◌==◌, if◌then◌else◌, Store,
}

-- What `drawText` calls: `drawGlyph` and `fillRect`, in the colours of the text and of the background.
pub data Part : Type 0 where
  glyph : (x code : ℕ) → (dw : Bool) → Part
  blank : (x w : ℕ) → Part

-- `drawGlyphs`, on `n` characters from the index `i` on.
unfoldable pub draw_glyphs : ℕ → ℕ → ℕ → ℕ → Store ℕ → Store Bool → List Part
draw_glyphs zero fw x i text dw = []
draw_glyphs (suc n) fw x i text dw =
    glyph x (text i) (dw i) ∷ draw_glyphs n fw (x + (if dw i then fw * 2 else fw)) (i + 1) text dw

-- The local variables of `drawText`: what waits to be drawn is nothing, or spaces from `startx` on
-- (`draw_space`), or the text from the index `starttext` on (`draw_text`).
pub data Waiting : Type 0 where
  nothing : Waiting
  spaces : (startx : ℕ) → Waiting
  glyphs : (startx startnum starttext : ℕ) → Waiting

-- The drawing of what waits, at the column `x` with `num` characters left.
unfoldable pub flush : Waiting → ℕ → ℕ → ℕ → Store ℕ → Store Bool → List Part
flush nothing num x fw text dw = []
flush (spaces startx) num x fw text dw = blank startx (x - startx) ∷ []
flush (glyphs startx startnum starttext) num x fw text dw =
    draw_glyphs (startnum - num) fw startx starttext text dw

-- What waits behind a space at `x`, and what is drawn for it.
unfoldable pub at_space : Waiting → ℕ → ℕ → ℕ → Store ℕ → Store Bool → List Part × Waiting
at_space nothing num x fw text dw = ([], spaces x)
at_space (spaces startx) num x fw text dw = ([], spaces startx)
at_space (glyphs startx startnum starttext) num x fw text dw =
    (flush (glyphs startx startnum starttext) num x fw text dw, spaces x)

-- What waits behind another character.
unfoldable pub at_glyph : Waiting → ℕ → ℕ → ℕ → ℕ → Store ℕ → Store Bool → List Part × Waiting
at_glyph nothing num x i fw text dw = ([], glyphs x num i)
at_glyph (spaces startx) num x i fw text dw =
    (flush (spaces startx) num x fw text dw, glyphs x num i)
at_glyph (glyphs startx startnum starttext) num x i fw text dw =
    ([], glyphs startx startnum starttext)

-- The loop of `drawText` and the drawing behind it.
unfoldable pub text_loop : ℕ → ℕ → ℕ → ℕ → Waiting → Store ℕ → Store Bool → List Part
text_loop zero x i fw waiting text dw = flush waiting 0 x fw text dw
text_loop (suc n) x i fw waiting text dw =
    let (drawn, next) = at_space waiting (suc n) x fw text dw in
    let (drawn', next') = at_glyph waiting (suc n) x i fw text dw in
    let rest = text_loop n (x + fw) (i + 1) fw next text dw in
    let rest' = text_loop n ((if dw i then x + fw else x) + fw) (i + 1) fw next' text dw in
    if text i == b' ' then drawn ++ rest else drawn' ++ rest'

-- `Screen::drawText`, in a font whose characters are `fw` pixels wide.
unfoldable pub draw_text : ℕ → ℕ → ℕ → Store ℕ → Store Bool → List Part
draw_text fw x num text dw = text_loop num x 0 fw nothing text dw
