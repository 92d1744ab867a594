-- ===== src/Vterm/Sequences/Dispatch.antt =====
-- In which state each action of the tables can be reached.
use fbterm.Prelude.{
  ℕ, zero, suc, ◌≤◌, ◌<◌, ◌≡◌, refl, Bool, true, false, ◌&&◌, ◌||◌, not, Option, some, ltb, ◌==◌,
  if◌then◌else◌, inl, inr, Bool-cases, get_or, arith,
}
use fbterm.Prelude.Arrays.{fill}
use fbterm.Vterm.Types.{
  EscapeState, es_normal, es_esc, es_square, es_nonstd, es_percent, es_charset, es_hash, es_funckey,
  es_keep, is_normal,
}
use fbterm.Vterm.Sequences.{
  Action, Sequence, last, find_sequence, control_sequences, escape_sequences, control_map,
  escape_map,
}

abbrev pub is_square : EscapeState → Bool
is_square es_square = true
is_square _ = false

abbrev pub is_nonstd : EscapeState → Bool
is_nonstd es_nonstd = true
is_nonstd _ = false

abbrev pub is_stay : EscapeState → Bool
is_stay es_keep = true
is_stay _ = false

-- What the parameter actions rely on: `;` counts in a CSI sequence alone, palette digits and the
-- start of a palette in an OSC sequence alone, and the OSC state is entered with cleared parameters.
unfoldable pub is_sound : EscapeState → Sequence → Bool
is_sound state seq = by_action seq.action
  where
    by_action : Option Action → Bool
    by_action (some Action.next_param) = is_square state && is_stay seq.next
    by_action (some Action.set_palette) = is_nonstd state && is_stay seq.next
    by_action (some Action.begin_set_palette) = is_nonstd state && is_stay seq.next
    by_action (some Action.clear_param) = true
    by_action _ = not (is_nonstd seq.next)

unfoldable pub all_below : ℕ → (ℕ → Bool) → Bool
all_below zero p = true
all_below (suc n) p = p n && all_below n p

pub all_below_lem : (n : ℕ) (p : ℕ → Bool) (x : ℕ) → all_below n p ≡ true → x < n → p x ≡ true
unfolding all_below
all_below_lem zero p x h b = absurd (omega arith)
all_below_lem (suc n) p x h b = ground (arith, all_below_lem n p x)

sound_table : (s : EscapeState) → all_below 256 (λ c. is_sound s (find_sequence s c)) ≡ true
unfolding all_below is_sound find_sequence control_map escape_map fill
sound_table es_normal = refl
sound_table es_esc = refl
sound_table es_square = refl
sound_table es_nonstd = refl
sound_table es_percent = refl
sound_table es_charset = refl
sound_table es_hash = refl
sound_table es_funckey = refl
sound_table es_keep = refl

-- A character that is no byte ends a sequence.
find_beyond :
    (s : EscapeState) (c : ℕ)
    → 256 ≤ c
    → find_sequence s c
      ≡ (if is_normal s then get_or control_sequences 0 last else get_or escape_sequences 0 last)
unfolding find_sequence
find_beyond es_normal c h = let e : ltb c 256 ≡ false = ground arith in rw e
find_beyond _ c h =
    let e : ltb c 256 ≡ false = ground arith in
    let f : ltb c 128 ≡ false = ground arith in
    let g : ltb 0 c ≡ true = ground arith in rw (e, f, g)

sound_beyond :
    (s : EscapeState)
    → is_sound s
        (if is_normal s then get_or control_sequences 0 last else get_or escape_sequences 0 last)
      ≡ true
unfolding is_sound control_sequences escape_sequences
sound_beyond es_normal = refl
sound_beyond _ = refl

-- Whatever byte arrives in whatever state, the entry that `do_control_char` finds for it obeys the
-- rules that the parameter actions rely on.
pub find_sequence-is_sound : (s : EscapeState) (c : ℕ) → is_sound s (find_sequence s c) ≡ true
find_sequence-is_sound s c = elim (Bool-cases (ltb c 256)) [
  | inl byte ↦
      all_below_lem 256 (λ c. is_sound s (find_sequence s c)) c (sound_table s) (ground arith)
  | inr more ↦ rw (find_beyond s c (ground arith)) (sound_beyond s)
]

-- Whether the entry names `set_mode`.
abbrev pub sets_mode : Option Action → Bool
sets_mode (some Action.set_mode) = true
sets_mode _ = false

mode_table :
    (s : EscapeState)
    → all_below 256 (λ c. not (sets_mode (find_sequence s c).action) || (is_square s && c == b'h'))
      ≡ true
unfolding all_below find_sequence control_map escape_map fill
mode_table es_normal = refl
mode_table es_esc = refl
mode_table es_square = refl
mode_table es_nonstd = refl
mode_table es_percent = refl
mode_table es_charset = refl
mode_table es_hash = refl
mode_table es_funckey = refl
mode_table es_keep = refl

mode_beyond :
    (s : EscapeState)
    → sets_mode
        (if is_normal s
          then get_or control_sequences 0 last
          else get_or escape_sequences 0 last).action
      ≡ false
unfolding control_sequences escape_sequences
mode_beyond es_normal = refl
mode_beyond _ = refl

-- The action `set_mode` is reached by the letter `h` at the end of a CSI sequence, and by no other
-- character.
pub find_sequence-sets_mode :
    (s : EscapeState) (c : ℕ)
    → sets_mode (find_sequence s c).action ≡ true
    → (s ≡ es_square) × (c ≡ b'h')
find_sequence-sets_mode s c h = elim (Bool-cases (ltb c 256)) [
  | inl b ↦ let k = all_below_lem 256 _ c (mode_table s) (ground arith) in ground arith
  | inr b ↦ absurd (ground (arith, mode_beyond s, find_beyond s c))
]
