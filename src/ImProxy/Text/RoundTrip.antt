-- ===== src/ImProxy/Text/RoundTrip.antt =====
-- The text of the input method is read as it was written.
use fbterm.Prelude.{
  ℕ, zero, suc, ◌+◌, ◌-◌, ◌*◌, ◌/◌, ◌%◌, ◌≤◌, ◌<◌, ◌≡◌, refl, ap, ◌∙◌, true, false, inl, inr,
  Bool-cases, List, [], ◌∷◌, ◌++◌, length, ltb, ◌==◌, Store, arith,
}
use fbterm.Shell.Text.{utf8_of, utf16_to_utf8}
use fbterm.ImProxy.Text.{decode_loop, utf8_to_utf16}

-- The codes have 16 bits.
unfoldable pub AllCodes : List ℕ → Type 0
AllCodes [] = Unit
AllCodes (c ∷ cs) = (c < 65536) × AllCodes cs

-- A byte, and the memory behind it.
unfoldable pub then_byte : ℕ → Store ℕ → Store ℕ
then_byte b f zero = b
then_byte b f (suc i) = f i

-- Memory that begins with the bytes.
unfoldable pub memory : List ℕ → Store ℕ → Store ℕ
memory [] rest = rest
memory (b ∷ bs) rest = then_byte b (memory bs rest)

one_byte :
    (n l c : ℕ) (f : Store ℕ)
    → c < 128
    → decode_loop (suc n) (l + 1) (then_byte c f) ≡ c ∷ decode_loop n l f
unfolding decode_loop then_byte
one_byte n l c f h =
    let e : l + 1 - 1 ≡ l = omega arith in
    let some_left : (l + 1 == 0) ≡ false = ground arith in
    let first : ltb c 128 ≡ true = ground (arith, h) in rw (some_left, first, e) refl

two_bytes :
    (n l c : ℕ) (f : Store ℕ)
    → 128 ≤ c
    → c < 2048
    → decode_loop (suc n) (l + 1 + 1) (then_byte (0xc0 + c / 64 % 32) (then_byte (0x80 + c % 64) f))
      ≡ c ∷ decode_loop n l f
unfolding decode_loop then_byte
two_bytes n l c f a b =
    let e : l + 1 + 1 - 2 ≡ l = omega arith in
    let v : (0xc0 + c / 64 % 32) % 32 * 64 + (0x80 + c % 64) % 64 ≡ c = omega arith in
    let some_left : (l + 1 + 1 == 0) ≡ false = ground arith in
    let first : ltb (0xc0 + c / 64 % 32) 128 ≡ false = ground arith in
    let second : ((0xc0 + c / 64 % 32) / 32 == 6) ≡ true = ground arith in
    rw (some_left, first, second, e, v) refl

three_bytes :
    (n l c : ℕ) (f : Store ℕ)
    → 2048 ≤ c
    → c < 65536
    → decode_loop
        (suc n)
        (l + 1 + 1 + 1)
        (then_byte (0xe0 + c / 4096) (then_byte (0x80 + c / 64 % 64) (then_byte (0x80 + c % 64) f)))
      ≡ c ∷ decode_loop n l f
unfolding decode_loop then_byte
three_bytes n l c f a b =
    let e : l + 1 + 1 + 1 - 3 ≡ l = omega arith in
    let v : (0xe0 + c / 4096) % 16 * 4096 + (0x80 + c / 64 % 64) % 64 * 64 + (0x80 + c % 64) % 64
        ≡ c =
      omega arith in
    let some_left : (l + 1 + 1 + 1 == 0) ≡ false = ground arith in
    let first : ltb (0xe0 + c / 4096) 128 ≡ false = ground arith in
    let second : ((0xe0 + c / 4096) / 32 == 6) ≡ false = ground (arith, b) in
    let third : ((0xe0 + c / 4096) / 16 == 14) ≡ true = ground (arith, b) in
    rw (some_left, first, second, third, e, v) refl

-- A character's bytes are read in one round.
decode_loop-utf8_of :
    (n c : ℕ) (bs : List ℕ) (rest : Store ℕ)
    → c < 65536
    → decode_loop (suc n) (length (utf8_of c ++ bs)) (memory (utf8_of c ++ bs) rest)
      ≡ c ∷ decode_loop n (length bs) (memory bs rest)
unfolding utf8_of memory
decode_loop-utf8_of n c bs rest h = elim (Bool-cases (ltb 0 (c / 2048))) [
  | inl y ↦ rw y (three_bytes n (length bs) c (memory bs rest) (ground (arith, y)) h)
  | inr y ↦ elim (Bool-cases (ltb 0 (c / 128))) [
    | inl z ↦
        rw (y, z)
          (two_bytes n (length bs) c (memory bs rest) (ground (arith, z)) (ground (arith, y)))
    | inr z ↦ rw (y, z) (one_byte n (length bs) c (memory bs rest) (ground (arith, z)))
  ]
]

some_bytes : (c : ℕ) (bs : List ℕ) → length bs < length (utf8_of c ++ bs)
unfolding utf8_of
some_bytes c bs = ground arith

decode_loop-memory :
    (n : ℕ) (codes : List ℕ) (rest : Store ℕ)
    → AllCodes codes
    → length (utf16_to_utf8 codes) ≤ n
    → decode_loop n (length (utf16_to_utf8 codes)) (memory (utf16_to_utf8 codes) rest) ≡ codes
unfolding utf16_to_utf8 AllCodes
decode_loop-memory zero [] rest a b = unfold decode_loop in refl
decode_loop-memory zero (c ∷ cs) rest a b = absurd (omega (arith, some_bytes c (utf16_to_utf8 cs)))
decode_loop-memory (suc n) [] rest a b = unfold decode_loop in refl
decode_loop-memory (suc n) (c ∷ cs) rest (a, ok) b =
    decode_loop-utf8_of n c (utf16_to_utf8 cs) rest a
    ∙ ap (λ l. c ∷ l)
        (decode_loop-memory n cs rest ok (omega (arith, some_bytes c (utf16_to_utf8 cs))))

-- The bytes that `utf16_to_utf8` writes for codes of 16 bits are read back by `utf8_to_utf16`, whatever
-- stands behind them.
pub utf8_to_utf16-utf16_to_utf8 :
    (codes : List ℕ) (rest : Store ℕ)
    → AllCodes codes
    → utf8_to_utf16 (memory (utf16_to_utf8 codes) rest) (length (utf16_to_utf8 codes)) ≡ codes
unfolding utf8_to_utf16
utf8_to_utf16-utf16_to_utf8 codes rest a =
    decode_loop-memory (length (utf16_to_utf8 codes)) codes rest a (omega arith)
