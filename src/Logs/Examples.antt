-- ===== src/Logs/Examples.antt =====
-- A line that reaches the framer in two writes.
use ding.Base.{ℕ, ◌≡◌, refl, Bool, true, false, List, [], ◌∷◌, none, some, arith}
use ding.Logs.Frame.{Framer, write, is_end}
use ding.Logs.Boundaries.{take_bytes}
use ding.Logs.Bounds.{Fits, write-Fits}
use ding.Logs.Writes.{write-take_bytes, write-append}

abbrev any_line : List ℕ → Bool
any_line bytes = true

abbrev fresh : Framer
fresh = record {
  buf = [];
  oversize = false;
  read = 0;
  complete = 0;
  closed = false;
  carriage_return = false;
  multi = none;
  out = [];
}

-- "ab" is still in the buffer.
abbrev half : Framer
half = record fresh { buf = 97 ∷ 98 ∷ []; read = 2 }

half-write : write any_line any_line fresh (97 ∷ 98 ∷ []) ≡ some half
unfolding write is_end
half-write = refl

whole-write :
    write any_line any_line half (10 ∷ 99 ∷ [])
    ≡ some (record fresh {
      buf = 99 ∷ [];
      read = 4;
      complete = 3;
      out = record { bytes = 97 ∷ 98 ∷ []; invalid = false } ∷ [];
    })
unfolding write is_end
whole-write = refl

write-take_bytes_example :
    write any_line any_line half (10 ∷ 99 ∷ [])
    ≡ some (take_bytes any_line any_line half (10 ∷ 99 ∷ []))
write-take_bytes_example = write-take_bytes any_line any_line half (10 ∷ 99 ∷ []) (omega arith) refl

write-append_example :
    write any_line any_line fresh (97 ∷ 98 ∷ 10 ∷ 99 ∷ [])
    ≡ write any_line any_line half (10 ∷ 99 ∷ [])
write-append_example =
    write-append any_line any_line fresh half (97 ∷ 98 ∷ []) (10 ∷ 99 ∷ []) (omega arith) refl
      half-write

fresh-Fits : Fits fresh
fresh-Fits = record { buffer = omega arith; pending = tt; records = tt }

write-Fits_example : Fits half
write-Fits_example =
    write-Fits any_line any_line fresh half (97 ∷ 98 ∷ []) fresh-Fits refl half-write
