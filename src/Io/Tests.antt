-- ===== src/Io/Tests.antt =====
-- The pipe of a shell on concrete answers of the kernel and of `iconv`.
use fbterm.Prelude.{ℕ, ◌/◌, ◌≡◌, refl, true, List, [], ◌∷◌, ◌==◌, if◌then◌else◌, arith}
use fbterm.Io.Write.{wrote, again, interrupted, write_loop, write_io, gave_up}
use fbterm.Io.Write.Whole.{IsWhole, write_io-IsWhole}
use fbterm.Io.Translate.{Conversion, converted, illegal, after_call, translate_loop}
use fbterm.Io.Translate.Ends.{stops, Advances, translate_loop-ended}

abbrev abc : List ℕ
abc = b'a' ∷ b'b' ∷ b'c' ∷ []

write_io-IsWhole_example : IsWhole 5 abc (write_io (wrote 2 ∷ again ∷ wrote 1 ∷ []) abc)
write_io-IsWhole_example = write_io-IsWhole (wrote 2 ∷ again ∷ wrote 1 ∷ []) abc

-- A call that is interrupted loses the rest of the text.
interrupted_test :
    write_io (wrote 2 ∷ interrupted ∷ wrote 1 ∷ []) abc
    ≡ record { bytes = b'a' ∷ b'b' ∷ []; left = b'c' ∷ []; waits = 0; outcome = gave_up }
unfolding write_io write_loop
interrupted_test = refl

-- An encoding in which each byte below 128 is a character, and no other byte is allowed.
ascii : ℕ → List ℕ → Conversion
ascii round [] = record { used = 0; output = []; ending = converted }
ascii round (b ∷ bs) =
    if b / 128 == 0
    then record { used = 1; output = b ∷ []; ending = converted }
    else record { used = 0; output = []; ending = illegal }

ascii-Advances : Advances ascii
unfolding Advances stops ascii
ascii-Advances round b bs = ground arith

illegal_test :
    translate_loop 3 ascii (b'a' ∷ 200 ∷ b'c' ∷ [])
    ≡ record { pieces = (b'a' ∷ []) ∷ (b'?' ∷ []) ∷ (b'c' ∷ []) ∷ []; kept = []; ended = true }
unfolding translate_loop after_call ascii
illegal_test = refl

translate_loop-ended_example : (translate_loop 3 ascii abc).ended ≡ true
translate_loop-ended_example = translate_loop-ended 3 ascii abc ascii-Advances (omega arith)
