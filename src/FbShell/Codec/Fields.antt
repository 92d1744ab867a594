-- ===== src/FbShell/Codec/Fields.antt =====
-- The names that `switchCodec` reads from the configured value.
use fbterm.Prelude.{ℕ, zero, suc, ◌≡◌, ◌≢◌, refl, ap, ◌∙◌, none, some, List, [], ◌∷◌, ◌++◌, arith}
use fbterm.FbShell.Codec.{cut, fields, take}

-- The name has no comma.
unfoldable pub NoComma : List ℕ → Type 0
NoComma [] = Unit
NoComma (c ∷ cs) = (c ≢ b',') × NoComma cs

unfoldable pub NoCommas : List (List ℕ) → Type 0
NoCommas [] = Unit
NoCommas (n ∷ ns) = NoComma n × NoCommas ns

-- The names, with commas between them.
abbrev pub joined : List ℕ → List (List ℕ) → List ℕ
joined n [] = n
joined n (m ∷ ms) = n ++ b',' ∷ joined m ms

cut-name : (n : List ℕ) → NoComma n → cut n ≡ (n, none)
unfolding cut NoComma
cut-name [] h = refl
cut-name (c ∷ cs) (h, hs) = ground (arith, cut-name cs hs)

cut-joined : (n rest : List ℕ) → NoComma n → cut (n ++ b',' ∷ rest) ≡ (n, some rest)
unfolding cut NoComma
cut-joined [] rest h = refl
cut-joined (c ∷ cs) rest (h, hs) = ground (arith, cut-joined cs rest hs)

take_none : {A : Type 0} (k : ℕ) → take {A = A} 0 [] ≡ take k []
take_none zero = refl
take_none (suc k) = refl

-- From names without commas, joined by commas, the first `k` are read back.
pub fields-joined :
    (k : ℕ) (n : List ℕ) (ns : List (List ℕ))
    → NoComma n
    → NoCommas ns
    → fields k (joined n ns) ≡ take k (n ∷ ns)
unfolding fields NoCommas
fields-joined zero n ns h hs = refl
fields-joined (suc k) n [] h hs =
    ap (λ p. p.0 ∷ elim p.1 [ none ↦ [] | some next ↦ fields k next ]) (cut-name n h)
    ∙ ap (λ l. n ∷ l) (take_none k)
fields-joined (suc k) n (m ∷ ms) h g =
    ap (λ p. p.0 ∷ elim p.1 [ none ↦ [] | some next ↦ fields k next ])
      (cut-joined n (joined m ms) h)
    ∙ ap (λ l. n ∷ l) (fields-joined k m ms g.0 g.1)
