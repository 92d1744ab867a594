-- ===== src/Config.antt =====
-- src/fbconfig.cpp and src/fbconfig.h: the options of the configuration file and of the command line.
-- A string is a list of bytes, without the 0 at its end.
pub mod Entries
pub mod Lines
mod Tests
use fbterm.Prelude.{
  ℕ, zero, suc, ◌+◌, ◌-◌, ◌*◌, ◌/◌, ◌%◌, Bool, true, false, ◌&&◌, ◌||◌, Option, none, some, List,
  [], ◌∷◌, ltb, leb, ◌==◌, if◌then◌else◌, within, length, u32,
}

-- `!strcmp(a, b)`
unfoldable pub same : List ℕ → List ℕ → Bool
same [] [] = true
same [] (b ∷ bs) = false
same (a ∷ rest) [] = false
same (a ∷ rest) (b ∷ bs) = let equal = same rest bs in if a == b then equal else false

-- `OptionEntry`; the list of the entries begins with the last one added.
pub record OptionEntry : Type 0 where
  key : List ℕ
  val : List ℕ

-- `Config::getEntry`, whose callers use the value of the entry.
unfoldable pub get_entry : List ℕ → List OptionEntry → Option (List ℕ)
get_entry key [] = none
get_entry key (e ∷ es) = let rest = get_entry key es in if same key e.key then some e.val else rest

-- `Config::addEntry`
unfoldable pub add_entry : List ℕ → List ℕ → List OptionEntry → List OptionEntry
add_entry k v es = record { key = k; val = v } ∷ es

-- `entry->val = val` on the entry that `getEntry` finds.
unfoldable pub change_entry : List ℕ → List ℕ → List OptionEntry → List OptionEntry
change_entry k v [] = []
change_entry k v (e ∷ es) =
    let rest = change_entry k v es in if same k e.key then record e { val = v } ∷ es else e ∷ rest

-- What `parseArgs` does with the option and value that it has found.
unfoldable pub set_entry : List ℕ → List ℕ → List OptionEntry → List OptionEntry
set_entry k v es = elim (get_entry k es) [
  | none ↦ add_entry k v es
  | some old ↦ change_entry k v es
]

abbrev take : ℕ → List ℕ → List ℕ
take n [] = []
take n (c ∷ cs) = let rest = take (n - 1) cs in if n == 0 then [] else c ∷ rest

-- `getOption` for a buffer of `len` bytes.
unfoldable pub get_text : List ℕ → ℕ → List OptionEntry → List ℕ
get_text key len es = elim (get_entry key es) [
  | none ↦ []
  | some v ↦
      let last = u32 (len + 4294967295) in take (if ltb (length v) last then length v else last) v
]

abbrev yes : List ℕ
yes = b'y' ∷ b'e' ∷ b's' ∷ []

abbrev no : List ℕ
no = b'n' ∷ b'o' ∷ []

-- `getOption` for a bool.
unfoldable pub get_flag : List ℕ → List OptionEntry → Bool → Bool
get_flag key es old = elim (get_entry key es) [
  | none ↦ old
  | some v ↦ if same v yes then true else if same v no then false else old
]

-- `getOption` for a number; `strtol` gives the number, as it is stored in a u32, and the tail.
unfoldable pub get_number : (List ℕ → ℕ × List ℕ) → List ℕ → List OptionEntry → ℕ → ℕ
get_number strtol key es old = elim (get_entry key es) [
  | none ↦ old
  | some v ↦ let (a, tail) = strtol v in elim tail [ [] ↦ a | c ∷ cs ↦ old ]
]

-- `while (*cur == ' ') cur++`
unfoldable pub skip_spaces : List ℕ → List ℕ
skip_spaces [] = []
skip_spaces (c ∷ cs) = let rest = skip_spaces cs in if c == b' ' then rest else c ∷ cs

-- The string without the spaces at its end.
unfoldable pub trim_end : List ℕ → List ℕ
trim_end [] = []
trim_end (c ∷ cs) = elim (trim_end cs) [
  | [] ↦ (if c == b' ' then [] else c ∷ [])
  | d ∷ ds ↦ c ∷ d ∷ ds
]

-- `strchr(s, sep)`: the string up to the separator, and the string behind it where there is one.
unfoldable pub cut_at : ℕ → List ℕ → List ℕ × Option (List ℕ)
cut_at sep [] = ([], none)
cut_at sep (c ∷ cs) =
    let (front, rest) = cut_at sep cs in if c == sep then ([], some cs) else (c ∷ front, rest)

-- `parseOption`, from the key on.
unfoldable pub parse_key : List ℕ → List OptionEntry → List OptionEntry
parse_key key es =
    let (k, rest) = cut_at b'=' key in
    elim rest [
      | none ↦ es
      | some v ↦ elim (trim_end v) [ [] ↦ es | c ∷ cs ↦ add_entry k (c ∷ cs) es ]
    ]

-- `Config::parseOption`
unfoldable pub parse_option : List ℕ → List OptionEntry → List OptionEntry
parse_option str es = elim (skip_spaces str) [
  | [] ↦ es
  | c ∷ cs ↦ if c == b'#' then es else parse_key (c ∷ cs) es
]

-- The loop of the constructor over the lines of the file, on fuel.
unfoldable pub parse_lines : ℕ → List ℕ → List OptionEntry → List OptionEntry
parse_lines zero start es = es
parse_lines (suc fuel) start es =
    let (line, rest) = cut_at 10 start in
    elim rest [
      | none ↦ parse_option line es
      | some [] ↦ parse_option line es
      | some (c ∷ cs) ↦ parse_lines fuel (c ∷ cs) (parse_option line es)
    ]

-- The string at the beginning of the bytes: those up to the first byte 0.
unfoldable pub c_string : List ℕ → List ℕ
c_string [] = []
c_string (c ∷ cs) = let rest = c_string cs in if c == 0 then [] else c ∷ rest

-- `MAX_CONFIG_FILE_SIZE`
abbrev pub max_config_file_size : ℕ
max_config_file_size = 10240

-- `Config::Config`, on the bytes of the file, all of which `read` yields.
unfoldable pub read_config : List ℕ → List OptionEntry
read_config file =
    let entries = parse_lines (suc (length file)) (c_string file) [] in
    if ltb max_config_file_size (length file) then [] else entries

-- `struct option`, without the flag.
pub record LongOption : Type 0 where
  name : List ℕ
  has_arg : Bool
  val : ℕ

-- `options` of `parseArgs`, with the option for VESA modes.
unfoldable pub options : List LongOption
options =
    record { name = b'h' ∷ b'e' ∷ b'l' ∷ b'p' ∷ []; has_arg = false; val = b'h' }
    ∷ record {
      name = b'v' ∷ b'e' ∷ b'r' ∷ b's' ∷ b'i' ∷ b'o' ∷ b'n' ∷ [];
      has_arg = false;
      val = b'V';
    }
    ∷ record {
      name = b'v' ∷ b'e' ∷ b'r' ∷ b'b' ∷ b'o' ∷ b's' ∷ b'e' ∷ [];
      has_arg = false;
      val = b'v';
    }
    ∷ record {
      name = b'f' ∷ b'o' ∷ b'n' ∷ b't' ∷ b'-' ∷ b'n' ∷ b'a' ∷ b'm' ∷ b'e' ∷ b's' ∷ [];
      has_arg = true;
      val = b'n';
    }
    ∷ record {
      name = b'f' ∷ b'o' ∷ b'n' ∷ b't' ∷ b'-' ∷ b's' ∷ b'i' ∷ b'z' ∷ b'e' ∷ [];
      has_arg = true;
      val = b's';
    }
    ∷ record {
      name =
          b'c' ∷ b'o' ∷ b'l' ∷ b'o' ∷ b'r' ∷ b'-' ∷ b'f' ∷ b'o' ∷ b'r' ∷ b'e' ∷ b'g' ∷ b'r' ∷ b'o'
          ∷ b'u' ∷ b'n' ∷ b'd' ∷ [];
      has_arg = true;
      val = b'f';
    }
    ∷ record {
      name =
          b'c' ∷ b'o' ∷ b'l' ∷ b'o' ∷ b'r' ∷ b'-' ∷ b'b' ∷ b'a' ∷ b'c' ∷ b'k' ∷ b'g' ∷ b'r' ∷ b'o'
          ∷ b'u' ∷ b'n' ∷ b'd' ∷ [];
      has_arg = true;
      val = b'b';
    }
    ∷ record {
      name =
          b't' ∷ b'e' ∷ b'x' ∷ b't' ∷ b'-' ∷ b'e' ∷ b'n' ∷ b'c' ∷ b'o' ∷ b'd' ∷ b'i' ∷ b'n' ∷ b'g'
          ∷ b's' ∷ [];
      has_arg = true;
      val = b'e';
    }
    ∷ record {
      name =
          b's' ∷ b'c' ∷ b'r' ∷ b'e' ∷ b'e' ∷ b'n' ∷ b'-' ∷ b'r' ∷ b'o' ∷ b't' ∷ b'a' ∷ b't' ∷ b'e'
          ∷ [];
      has_arg = true;
      val = b'r';
    }
    ∷ record {
      name = b'i' ∷ b'n' ∷ b'p' ∷ b'u' ∷ b't' ∷ b'-' ∷ b'm' ∷ b'e' ∷ b't' ∷ b'h' ∷ b'o' ∷ b'd' ∷ [];
      has_arg = true;
      val = b'i';
    }
    ∷ record {
      name = b'c' ∷ b'u' ∷ b'r' ∷ b's' ∷ b'o' ∷ b'r' ∷ b'-' ∷ b's' ∷ b'h' ∷ b'a' ∷ b'p' ∷ b'e' ∷ [];
      has_arg = true;
      val = b'c';
    }
    ∷ record {
      name =
          b'c' ∷ b'u' ∷ b'r' ∷ b's' ∷ b'o' ∷ b'r' ∷ b'-' ∷ b'i' ∷ b'n' ∷ b't' ∷ b'e' ∷ b'r' ∷ b'v'
          ∷ b'a' ∷ b'l' ∷ [];
      has_arg = true;
      val = b'C';
    }
    ∷ record {
      name = b'f' ∷ b'o' ∷ b'n' ∷ b't' ∷ b'-' ∷ b'w' ∷ b'i' ∷ b'd' ∷ b't' ∷ b'h' ∷ [];
      has_arg = true;
      val = b'W';
    }
    ∷ record {
      name = b'f' ∷ b'o' ∷ b'n' ∷ b't' ∷ b'-' ∷ b'h' ∷ b'e' ∷ b'i' ∷ b'g' ∷ b'h' ∷ b't' ∷ [];
      has_arg = true;
      val = b'H';
    }
    ∷ record {
      name =
          b'f' ∷ b'o' ∷ b'n' ∷ b't' ∷ b'-' ∷ b'b' ∷ b'a' ∷ b's' ∷ b'e' ∷ b'l' ∷ b'i' ∷ b'n' ∷ b'e'
          ∷ [];
      has_arg = true;
      val = b'B';
    }
    ∷ record {
      name =
          b'a' ∷ b'm' ∷ b'b' ∷ b'i' ∷ b'g' ∷ b'u' ∷ b'o' ∷ b'u' ∷ b's' ∷ b'-' ∷ b'w' ∷ b'i' ∷ b'd'
          ∷ b'e' ∷ [];
      has_arg = false;
      val = b'a';
    }
    ∷ record {
      name =
          b't' ∷ b'e' ∷ b'r' ∷ b'm' ∷ b'-' ∷ b'i' ∷ b's' ∷ b'-' ∷ b'l' ∷ b'i' ∷ b'n' ∷ b'u' ∷ b'x'
          ∷ [];
      has_arg = false;
      val = b'l';
    }
    ∷ record {
      name = b'v' ∷ b'e' ∷ b's' ∷ b'a' ∷ b'-' ∷ b'm' ∷ b'o' ∷ b'd' ∷ b'e' ∷ [];
      has_arg = true;
      val = 0;
    }
    ∷ []

-- An answer of `getopt_long`: what it returns, and `optarg`.
pub record Answer : Type 0 where
  index : ℕ
  arg : List ℕ

-- The loop over `options`: the first one with the value of the answer.
unfoldable pub take_option : List LongOption → Answer → List OptionEntry → List OptionEntry
take_option [] a es = es
take_option (o ∷ os) a es =
    let rest = take_option os a es in
    if o.val == a.index then set_entry o.name (if o.has_arg then a.arg else yes) es else rest

-- `Config::parseArgs`, on the answers of `getopt_long` until it returns -1: whether to go on.
unfoldable pub parse_args : List Answer → List OptionEntry → Bool × List OptionEntry
parse_args [] es = (true, es)
parse_args (a ∷ later) es =
    let rest = parse_args later (take_option options a es) in
    if a.index == b'V' || (a.index == b'h' || a.index == b'?') then (false, es) else rest
