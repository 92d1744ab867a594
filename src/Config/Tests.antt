-- ===== src/Config/Tests.antt =====
-- Configurations, on concrete texts.
use fbterm.Prelude.{◌≡◌, refl, true, false, some, List, [], ◌∷◌, arith}
use fbterm.Config.{
  OptionEntry, Answer, same, get_entry, add_entry, set_entry, change_entry, get_text, get_flag,
  get_number, read_config, c_string, parse_args, options, take_option, parse_lines, parse_option,
  parse_key, cut_at, trim_end, skip_spaces,
}
use fbterm.Config.Entries.{last_given, parse_args-last_given}
use fbterm.Config.Lines.{
  Without, IsKey, EndsSolid, IsEntry, AreEntries, printed, read_config-printed,
}

abbrev rotated : OptionEntry
rotated = record {
  key =
      b's' ∷ b'c' ∷ b'r' ∷ b'e' ∷ b'e' ∷ b'n' ∷ b'-' ∷ b'r' ∷ b'o' ∷ b't' ∷ b'a' ∷ b't' ∷ b'e' ∷ [];
  val = b'2' ∷ [];
}

abbrev cyan : OptionEntry
cyan = record {
  key =
      b'c' ∷ b'o' ∷ b'l' ∷ b'o' ∷ b'r' ∷ b'-' ∷ b'f' ∷ b'o' ∷ b'r' ∷ b'e' ∷ b'g' ∷ b'r' ∷ b'o'
      ∷ b'u' ∷ b'n' ∷ b'd' ∷ [];
  val = b'6' ∷ [];
}

abbrev file : List OptionEntry
file = rotated ∷ cyan ∷ []

file-AreEntries : AreEntries file
unfolding AreEntries IsEntry IsKey EndsSolid Without
file-AreEntries = ground arith

-- Spaces before the key and behind the value are dropped; a comment and an option without a value are no entries.
spaced :
    read_config (
      b' ' ∷ b' ' ∷ b'k' ∷ b'=' ∷ b'v' ∷ b' ' ∷ 10 ∷ b'#' ∷ b'x' ∷ 10 ∷ b'y' ∷ b'=' ∷ b' ' ∷ b' '
      ∷ [])
    ≡ record { key = b'k' ∷ []; val = b'v' ∷ [] } ∷ []
unfolding read_config c_string parse_lines parse_option parse_key cut_at trim_end skip_spaces
    add_entry
spaced = refl

-- Of two lines for an option, the later one counts.
later_line :
    get_entry rotated.key
      (read_config (printed (rotated ∷ record rotated { val = b'3' ∷ [] } ∷ [])))
    ≡ some (b'3' ∷ [])
unfolding read_config c_string parse_lines parse_option parse_key cut_at trim_end skip_spaces
    add_entry get_entry same
later_line = refl

-- A buffer of two bytes takes one byte of the value, and the 0.
short_buffer : get_text cyan.key 2 (record cyan { val = b'4' ∷ b'2' ∷ [] } ∷ []) ≡ b'4' ∷ []
unfolding get_text get_entry same
short_buffer = refl

-- A value that is not read to its end leaves the number.
trailing_text : get_number (λ v. (12, b'p' ∷ [])) cyan.key (cyan ∷ []) 7 ≡ 7
unfolding get_number get_entry same
trailing_text = refl

wide_flag :
    get_flag (b'w' ∷ []) (record { key = b'w' ∷ []; val = b'y' ∷ b'e' ∷ b's' ∷ [] } ∷ []) false
    ≡ true
unfolding get_flag get_entry same
wide_flag = refl

read_config-printed_example : read_config (printed file) ≡ cyan ∷ rotated ∷ []
read_config-printed_example = read_config-printed file file-AreEntries (omega arith)

abbrev turn : List Answer
turn = record { index = b'r'; arg = b'1' ∷ [] } ∷ record { index = b'r'; arg = b'3' ∷ [] } ∷ []

turned :
    parse_args turn (cyan ∷ rotated ∷ []) ≡ (true, cyan ∷ record rotated { val = b'3' ∷ [] } ∷ [])
unfolding parse_args take_option options set_entry change_entry get_entry same
turned = refl

parse_args-last_given_example :
    get_entry rotated.key (cyan ∷ record rotated { val = b'3' ∷ [] } ∷ [])
    ≡ last_given rotated.key turn (get_entry rotated.key (cyan ∷ rotated ∷ []))
parse_args-last_given_example =
    parse_args-last_given rotated.key turn (cyan ∷ rotated ∷ [])
      (cyan ∷ record rotated { val = b'3' ∷ [] } ∷ []) turned
