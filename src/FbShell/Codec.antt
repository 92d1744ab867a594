-- ===== src/FbShell/Codec.antt =====
-- src/fbshell.cpp: `switchCodec`, the choice among the configured text encodings.
pub mod Fields
use fbterm.Prelude.{ℕ, zero, suc, ◌-◌, Option, none, some, List, [], ◌∷◌, ltb, ◌==◌, if◌then◌else◌}
use fbterm.FbShell.State.{FbShell, set_codec, call}

-- `strchr(cur, ',')`: the string up to the comma, and the string behind it where there is one.
unfoldable pub cut : List ℕ → List ℕ × Option (List ℕ)
cut [] = ([], none)
cut (c ∷ cs) = let (name, rest) = cut cs in if c == b',' then ([], some cs) else (c ∷ name, rest)

-- The loop of `switchCodec`, on the places of `codecs` that are left.
unfoldable pub fields : ℕ → List ℕ → List (List ℕ)
fields zero cur = []
fields (suc n) cur =
    let (name, rest) = cut cur in name ∷ elim rest [ none ↦ [] | some next ↦ fields n next ]

-- `NR_CODECS`
abbrev pub nr_codecs : ℕ
nr_codecs = 5

abbrev pub take {ℓ} : {A : Type ℓ} → ℕ → List A → List A
take zero xs = []
take (suc n) [] = []
take (suc n) (x ∷ xs) = x ∷ take n xs

-- `codecs`, for the value of the option `text-encodings`, which `getOption` puts into `buf[128]`.
unfoldable pub codecs : List ℕ → List (List ℕ)
codecs encodings = elim (take 127 encodings) [ [] ↦ [] | c ∷ cs ↦ fields nr_codecs (c ∷ cs) ]

abbrev pub nth {ℓ} : {A : Type ℓ} → List A → ℕ → Option A
nth [] i = none
nth (x ∷ xs) i = if i == 0 then some x else nth xs (i - 1)

-- `FbShell::switchCodec`; `local` is the codec of the locale.
unfoldable pub switch_codec : List ℕ → List ℕ → ℕ → FbShell → FbShell
switch_codec local encodings index f =
    if index == 0
    then call (set_codec local) f
    else if ltb nr_codecs index
    then f
    else elim (nth (codecs encodings) (index - 1)) [
      | none ↦ f
      | some codec ↦ call (set_codec codec) f
    ]
