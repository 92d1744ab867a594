-- ===== src/Config/Lines.antt =====
-- The lines of the configuration file.
use fbterm.Prelude.{
  ℕ, zero, suc, ◌≤◌, ◌<◌, ◌≡◌, ◌≢◌, refl, ap, ◌∙◌, some, List, [], ◌∷◌, ◌++◌, length, false, ltb,
  arith,
}
use fbterm.Prelude.Lists.{length-++}
use fbterm.Config.{
  OptionEntry, add_entry, skip_spaces, trim_end, cut_at, c_string, max_config_file_size, parse_key,
  parse_option, parse_lines, read_config,
}

-- The byte is not in the string.
unfoldable pub Without : ℕ → List ℕ → Type 0
Without b [] = Unit
Without b (c ∷ cs) = (c ≢ b) × Without b cs

-- The string begins with neither a space nor `#`, and has no `=` and no end of a line.
unfoldable pub IsKey : List ℕ → Type 0
IsKey [] = ⊥
IsKey (c ∷ cs) = (c ≢ b' ') × (c ≢ b'#') × Without b'=' (c ∷ cs) × Without 10 (c ∷ cs)

-- The string does not end with a space.
unfoldable pub EndsSolid : List ℕ → Type 0
EndsSolid [] = ⊥
EndsSolid (c ∷ []) = c ≢ b' '
EndsSolid (c ∷ d ∷ ds) = EndsSolid (d ∷ ds)

-- A line of its own: neither string has an end of a line or of the text in it.
unfoldable pub IsEntry : OptionEntry → Type 0
IsEntry e = IsKey e.key × EndsSolid e.val × Without 10 e.val × Without 0 e.key × Without 0 e.val

unfoldable pub AreEntries : List OptionEntry → Type 0
AreEntries [] = Unit
AreEntries (e ∷ es) = IsEntry e × AreEntries es

-- The text of a line, and of a file that has a line for each entry.
abbrev pub line : OptionEntry → List ℕ
line e = e.key ++ (b'=' ∷ e.val)

abbrev pub printed : List OptionEntry → List ℕ
printed [] = []
printed (e ∷ es) = line e ++ (10 ∷ printed es)

-- The entries in the order in which `addEntry` leaves them.
abbrev pub onto : List OptionEntry → List OptionEntry → List OptionEntry
onto [] old = old
onto (e ∷ es) old = onto es (e ∷ old)

cut_at-before :
    (b : ℕ) (front rest : List ℕ)
    → Without b front
    → cut_at b (front ++ (b ∷ rest)) ≡ (front, some rest)
unfolding cut_at Without
cut_at-before b [] rest h = ground arith
cut_at-before b (c ∷ cs) rest (h, hs) = ground (arith, h, cut_at-before b cs rest hs)

Without-++ : (b : ℕ) (xs ys : List ℕ) → Without b xs → Without b ys → Without b (xs ++ ys)
unfolding Without
Without-++ b [] ys h g = g
Without-++ b (x ∷ xs) ys (h, hs) g = (h, Without-++ b xs ys hs g)

trim_end-solid : (v : List ℕ) → EndsSolid v → trim_end v ≡ v
unfolding trim_end EndsSolid
trim_end-solid [] h = refl
trim_end-solid (c ∷ []) h = ground (arith, h)
trim_end-solid (c ∷ d ∷ ds) h = ground (arith, trim_end-solid (d ∷ ds) h)

parse_key-line :
    (k v : List ℕ) (old : List OptionEntry)
    → Without b'=' k
    → EndsSolid v
    → parse_key (k ++ (b'=' ∷ v)) old ≡ add_entry k v old
unfolding parse_key EndsSolid
parse_key-line k [] old h g = elim g [ ]
parse_key-line k (c ∷ cs) old h g =
    ground (arith, cut_at-before b'=' k (c ∷ cs) h, trim_end-solid (c ∷ cs) g)

parse_option-line :
    (k v : List ℕ) (old : List OptionEntry)
    → IsKey k
    → EndsSolid v
    → parse_option (k ++ (b'=' ∷ v)) old ≡ add_entry k v old
unfolding parse_option IsKey skip_spaces
parse_option-line [] v old h g = elim h [ ]
parse_option-line (c ∷ cs) v old (a, b, h, n) g =
    ground (arith, a, b, parse_key-line (c ∷ cs) v old h g)

line-Without : (k v : List ℕ) → IsKey k → Without 10 v → Without 10 (k ++ (b'=' ∷ v))
unfolding Without IsKey
line-Without [] v h g = elim h [ ]
line-Without (c ∷ cs) v (a, b, h, n) g = Without-++ 10 (c ∷ cs) (b'=' ∷ v) n (omega arith, g)

-- A text that begins with a key is not empty.
key_first :
    (k v rest : List ℕ) → IsKey k → (c : ℕ) × (cs : List ℕ) × ((k ++ (b'=' ∷ v)) ++ rest ≡ c ∷ cs)
unfolding IsKey
key_first [] v rest h = elim h [ ]
key_first (c ∷ cs) v rest h = (c, (cs ++ (b'=' ∷ v)) ++ rest, refl)

parse_lines-last :
    (fuel : ℕ) (l : List ℕ) (old : List OptionEntry)
    → Without 10 l
    → parse_lines (suc fuel) (l ++ (10 ∷ [])) old ≡ parse_option l old
unfolding parse_lines
parse_lines-last fuel l old h = ground (arith, cut_at-before 10 l [] h)

parse_lines-more :
    (fuel : ℕ) (l rest : List ℕ) (old : List OptionEntry)
    → Without 10 l
    → (c : ℕ) × (cs : List ℕ) × (rest ≡ c ∷ cs)
    → parse_lines (suc fuel) (l ++ (10 ∷ rest)) old ≡ parse_lines fuel rest (parse_option l old)
unfolding parse_lines
parse_lines-more fuel l rest old h (c, cs, starts) =
    ground (arith, starts, cut_at-before 10 l rest h)

parse_lines-printed :
    (fuel : ℕ) (e : OptionEntry) (es old : List OptionEntry)
    → AreEntries (e ∷ es)
    → length es < fuel
    → parse_lines fuel (printed (e ∷ es)) old ≡ onto (e ∷ es) old
unfolding AreEntries IsEntry add_entry
parse_lines-printed zero e es old h enough = ground (arith, enough)
parse_lines-printed (suc fuel) e [] old ((k, v, n, z, y), rest) enough =
    parse_lines-last fuel (line e) old (line-Without e.key e.val k n)
    ∙ parse_option-line e.key e.val old k v
parse_lines-printed (suc fuel) e (f ∷ es) old ((k, v, n, z, y), rest) enough =
    parse_lines-more fuel (line e) (printed (f ∷ es)) old (line-Without e.key e.val k n)
      (key_first f.key f.val (10 ∷ printed es) rest.0.0)
    ∙ ap (parse_lines fuel (printed (f ∷ es))) (parse_option-line e.key e.val old k v)
    ∙ parse_lines-printed fuel f es (e ∷ old) rest (omega (arith, enough))

length-printed : (es : List OptionEntry) → length es ≤ length (printed es)
length-printed [] = omega arith
length-printed (e ∷ es) = omega (arith, length-++ (line e) (10 ∷ printed es), length-printed es)

c_string-whole : (s : List ℕ) → Without 0 s → c_string s ≡ s
unfolding c_string Without
c_string-whole [] h = refl
c_string-whole (c ∷ cs) (h, hs) = ground (arith, h, c_string-whole cs hs)

printed-Without : (es : List OptionEntry) → AreEntries es → Without 0 (printed es)
unfolding AreEntries IsEntry Without
printed-Without [] h = tt
printed-Without (e ∷ es) ((k, v, n, z, y), rest) =
    Without-++ 0 (line e) (10 ∷ printed es) (Without-++ 0 e.key (b'=' ∷ e.val) z (omega arith, y))
      (omega arith, printed-Without es rest)

parse_lines-file :
    (es : List OptionEntry)
    → AreEntries es
    → parse_lines (suc (length (printed es))) (printed es) [] ≡ onto es []
unfolding parse_lines parse_option skip_spaces cut_at
parse_lines-file [] h = refl
parse_lines-file (e ∷ es) h =
    parse_lines-printed (suc (length (printed (e ∷ es)))) e es [] h
      (omega (arith, length-printed (e ∷ es)))

-- A file that has the entries, one on each line, is read as these entries, the last one first, if it
-- is not larger than the 10240 bytes that are read.
pub read_config-printed :
    (es : List OptionEntry)
    → AreEntries es
    → length (printed es) ≤ max_config_file_size
    → read_config (printed es) ≡ onto es []
unfolding read_config
read_config-printed es h small =
    let not_large : ltb max_config_file_size (length (printed es)) ≡ false =
      ground (arith, small) in
    rw (not_large, c_string-whole (printed es) (printed-Without es h)) (parse_lines-file es h)
