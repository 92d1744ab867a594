-- ===== src/Config/Entries.antt =====
-- The entries that the command line sets, over those of the file.
use fbterm.Prelude.{
  ℕ, ◌≡◌, refl, sym, ap, subst, ◌∙◌, ◌⊎◌, inl, inr, true, ◌||◌, none, some, Option, List, [], ◌∷◌,
  if◌then◌else◌, ◌==◌, Bool-cases, arith,
}
use fbterm.Config.{
  same, OptionEntry, get_entry, add_entry, change_entry, set_entry, LongOption, options, Answer,
  take_option, parse_args, yes,
}

same_refl : (a : List ℕ) → same a a ≡ true
unfolding same
same_refl [] = refl
same_refl (a ∷ rest) = ground (arith, same_refl rest)

same_sound : (a b : List ℕ) → same a b ≡ true → a ≡ b
unfolding same
same_sound [] [] h = refl
same_sound [] (b ∷ bs) h = ground (arith, h)
same_sound (a ∷ rest) [] h = ground (arith, h)
same_sound (a ∷ rest) (b ∷ bs) h = grind (arith, h, same_sound rest bs)

-- Whether a string is a second one is whether it is a third, where those are the same.
same_trans : (k a b : List ℕ) → same a b ≡ true → same k a ≡ same k b
same_trans k a b h = ap (same k) (same_sound a b h)

-- A string that is two strings makes them the same.
same_both : (k a b : List ℕ) → same k a ≡ true → same k b ≡ true → same a b ≡ true
same_both k a b h g = subst (λ x. same x b ≡ true) (same_sound k a h) g

get_entry-change :
    (k key v old : List ℕ) (es : List OptionEntry)
    → get_entry key es ≡ some old
    → get_entry k (change_entry key v es) ≡ (if same k key then some v else get_entry k es)
unfolding get_entry change_entry
get_entry-change k key v old [] h = ground (arith, h)
get_entry-change k key v old (e ∷ es) h = elim (Bool-cases (same key e.key)) [
  | inl eq ↦ ground (arith, same_trans k key e.key eq)
  | inr ne ↦
      ground (arith, get_entry-change k key v old es (ground (arith, h, ne)), same_both k key e.key)
]

Option-cases : {A : Type 0} (o : Option A) → (o ≡ none) ⊎ ((x : A) × (o ≡ some x))
Option-cases none = inl refl
Option-cases (some x) = inr (x, refl)

-- An entry that is set is found with its new value, and the others are found as before.
get_entry-set_entry :
    (k key v : List ℕ) (es : List OptionEntry)
    → get_entry k (set_entry key v es) ≡ (if same k key then some v else get_entry k es)
unfolding set_entry add_entry get_entry
get_entry-set_entry k key v es = elim (Option-cases (get_entry key es)) [
  | inl missing ↦ ground (arith, missing)
  | inr (old, found) ↦ ground (arith, found, get_entry-change k key v old es found)
]

-- The first option that has the value.
unfoldable pub find_option : ℕ → List LongOption → Option LongOption
find_option i [] = none
find_option i (o ∷ os) = let rest = find_option i os in if o.val == i then some o else rest

-- The value of option `k` after an answer, where it was `old` before.
unfoldable pub given : List ℕ → Answer → Option (List ℕ) → Option (List ℕ)
given k a old = elim (find_option a.index options) [
  | none ↦ old
  | some o ↦ if same k o.name then some (if o.has_arg then a.arg else yes) else old
]

-- The value of option `k` after all answers: that of the last one for it.
unfoldable pub last_given : List ℕ → List Answer → Option (List ℕ) → Option (List ℕ)
last_given k [] old = old
last_given k (a ∷ later) old = last_given k later (given k a old)

get_entry-take_option :
    (k : List ℕ) (a : Answer) (es : List OptionEntry) (os : List LongOption)
    → get_entry k (take_option os a es) ≡ elim (find_option a.index os) [
      | none ↦ get_entry k es
      | some o ↦ if same k o.name then some (if o.has_arg then a.arg else yes) else get_entry k es
    ]
unfolding take_option find_option
get_entry-take_option k a es [] = refl
get_entry-take_option k a es (o ∷ os) = elim (Bool-cases (o.val == a.index)) [
  | inl eq ↦ ground (arith, eq, get_entry-set_entry k o.name (if o.has_arg then a.arg else yes) es)
  | inr ne ↦ ground (arith, ne, get_entry-take_option k a es os)
]

-- When `parse_args` goes on, an option has the value of the last argument for it, and without one
-- the value that it had before, in the file.
pub parse_args-last_given :
    (k : List ℕ) (answers : List Answer) (es new : List OptionEntry)
    → parse_args answers es ≡ (true, new)
    → get_entry k new ≡ last_given k answers (get_entry k es)
unfolding parse_args last_given given
parse_args-last_given k [] es new h = ap (λ r. get_entry k (r.1)) (sym h)
parse_args-last_given k (a ∷ later) es new h =
    elim (Bool-cases (a.index == b'V' || (a.index == b'h' || a.index == b'?'))) [
      | inl stops ↦ ground (arith, h, stops)
      | inr goes ↦
          parse_args-last_given k later (take_option options a es) new (ground (arith, h, goes))
          ∙ ap (last_given k later) (get_entry-take_option k a es options)
    ]
