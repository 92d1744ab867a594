-- ===== src/Io/Translate.antt =====
-- src/lib/io.cpp: `translate` and `ready`, which convert text between character encodings.
pub mod Ends
use fbterm.Prelude.{
  ℕ, zero, suc, ◌+◌, ◌-◌, Bool, true, false, not, ◌&&◌, Option, none, some, List, [], ◌∷◌, ◌++◌,
  ◌==◌, if◌then◌else◌,
}
use fbterm.Io.Write.{dropped, is_done}

-- Why a call of `iconv` has ended: all is converted, or the output is full, or at a byte that is not of
-- the encoding (EILSEQ), or within a character (EINVAL).
pub data Ending : Type 0 where
  converted full illegal incomplete : Ending

-- A call of `iconv`: the bytes of the input it has taken, its output, and how it has ended.
pub record Conversion : Type 0 where
  pub used : ℕ
  pub output : List ℕ
  pub ending : Ending

-- What `translate` passes on, piece by piece (by `readyRead` or `writeIo`), and what it keeps for the next
-- call; `ended` is false where the rounds given are not enough.
pub record Translated : Type 0 where
  pub pieces : List (List ℕ)
  pub kept : List ℕ
  pub ended : Bool

abbrev pub pass_on : List ℕ → Translated → Translated
pass_on piece r = if is_done piece then r else record r { pieces = piece ∷ r.pieces }

-- What follows a call of `iconv`, with the rest of the loop where it goes on, and where a byte is skipped.
unfoldable pub after_call : Ending → List ℕ → Translated → Translated → Translated
after_call converted left rest skipped = rest
after_call full left rest skipped = rest
after_call illegal left rest skipped = pass_on (b'?' ∷ []) skipped
after_call incomplete left rest skipped = record { pieces = []; kept = left; ended = true }

-- The loop of `translate`, where `iconv` may answer otherwise in each round.
unfoldable pub translate_loop : ℕ → (ℕ → List ℕ → Conversion) → List ℕ → Translated
translate_loop zero iconv buf = record { pieces = []; kept = []; ended = is_done buf }
translate_loop (suc n) iconv buf =
    let c = iconv n buf in
    let left = dropped c.used buf in
    let skipped = translate_loop n iconv (dropped 1 left) in
    let rest = translate_loop n iconv left in
    if is_done buf
    then record { pieces = []; kept = []; ended = true }
    else pass_on c.output (after_call c.ending left rest skipped)

-- `IoPipe::translate`; `codec` is none where no conversion is needed, and `kept` are the bytes in
-- `mBufRead` or `mBufWrite`.
unfoldable pub translate : ℕ → Option (ℕ → List ℕ → Conversion) → List ℕ → List ℕ → Translated
translate n none kept [] = record { pieces = []; kept = kept; ended = true }
translate n none kept (b ∷ bs) = record { pieces = (b ∷ bs) ∷ []; kept = kept; ended = true }
translate n (some iconv) kept [] = record { pieces = []; kept = kept; ended = true }
translate n (some iconv) kept (b ∷ bs) =
    let r = translate_loop n iconv (b ∷ bs) in
    record r { kept = if is_done r.kept then kept else r.kept }

-- What `read` answers.
pub data Arrival : Type 0 where
  end_of_file : Arrival
  not_yet : Arrival
  read_failed : (err : ℕ) → Arrival
  arrived : List ℕ → Arrival

-- `IoPipe::ready`: the bytes kept of the last call come before those that arrive. None stands for the
-- call of `ioError`.
unfoldable pub ready : ℕ → Option (ℕ → List ℕ → Conversion) → List ℕ → Arrival → Option Translated
ready n codec kept end_of_file = none
ready n codec kept not_yet = some (record { pieces = []; kept = kept; ended = true })
ready n codec kept (read_failed err) = none
ready n codec kept (arrived bytes) = some (translate n codec [] (kept ++ bytes))
