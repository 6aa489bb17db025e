-- ===== src/Logs/Writes.antt =====
-- Two writes against one write of all their bytes.
use ding.Base.{
  ℕ, ◌≡◌, refl, ap, sym, ◌∙◌, Bool, true, false, List, [], ◌∷◌, ◌++◌, Option, none, some, length,
  if◌then◌else◌, arith,
}
use mathlib.Core.Option.{some-injective}
use ding.Logs.Frame.{
  Framer, Multiline, is_end, advanced, take_part, flush_multi, deliver_record, begin_record,
  continue_record, multi_line, line, line_under, end_line, write_loop, write,
}
use ding.Logs.Boundaries.{Bounded, take_part-Bounded, take_byte, take_bytes, write_loop-take_bytes}

take_part-closed : (f : Framer) (p : List ℕ) → (take_part f p).closed ≡ f.closed
unfolding take_part
take_part-closed f p = ground arith

flush_multi-closed : (f : Framer) (m : Multiline) → (flush_multi f m).closed ≡ f.closed
unfolding flush_multi deliver_record
flush_multi-closed f m = ground arith

unless_closed : (b : Bool) (x : Option Framer) → b ≡ false → (if b then none else x) ≡ x
unless_closed true x e = ground (arith, e)
unless_closed false x e = refl

module _ (starts continues : List ℕ → Bool) where
  multi_line-closed :
      (f : Framer) (m : Multiline) (bytes : List ℕ) (invalid : Bool)
      → (multi_line starts continues f m bytes invalid).closed ≡ f.closed
  unfolding multi_line begin_record continue_record deliver_record
  multi_line-closed f m bytes true = ground arith
  multi_line-closed f m bytes false = ground (arith, flush_multi-closed f m)

  line-closed :
      (f : Framer) (bytes : List ℕ) (invalid : Bool)
      → (line starts continues f bytes invalid).closed ≡ f.closed
  unfolding line line_under deliver_record
  line-closed f bytes invalid = cases f.multi
    where
      cases :
          (o : Option Multiline) → (line_under starts continues f bytes invalid o).closed ≡ f.closed
      cases none = refl
      cases (some m) = multi_line-closed f m bytes invalid

  take_byte-closed : (f : Framer) (b : ℕ) → (take_byte starts continues f b).closed ≡ f.closed
  unfolding take_byte end_line advanced
  take_byte-closed f b = cases (is_end f.carriage_return b)
    where
      cases :
          (e : Bool)
          → (if e
              then end_line starts continues (advanced f 1)
              else advanced (take_part f (b ∷ [])) 1).closed
            ≡ f.closed
      cases true = line-closed (advanced f 1) f.buf f.oversize
      cases false = take_part-closed f (b ∷ [])

  take_bytes-closed :
      (f : Framer) (p : List ℕ) → (take_bytes starts continues f p).closed ≡ f.closed
  unfolding take_bytes
  take_bytes-closed f [] = refl
  take_bytes-closed f (b ∷ p) =
      take_bytes-closed (take_byte starts continues f b) p ∙ take_byte-closed f b

  take_byte-Bounded : (f : Framer) (b : ℕ) → Bounded f → Bounded (take_byte starts continues f b)
  unfolding take_byte end_line advanced
  take_byte-Bounded f b h = cases (is_end f.carriage_return b)
    where
      cases :
          (e : Bool)
          → Bounded (
              if e
              then end_line starts continues (advanced f 1)
              else advanced (take_part f (b ∷ [])) 1)
      cases true = omega arith
      cases false = take_part-Bounded f (b ∷ []) h

  take_bytes-Bounded :
      (f : Framer) (p : List ℕ) → Bounded f → Bounded (take_bytes starts continues f p)
  unfolding take_bytes
  take_bytes-Bounded f [] h = h
  take_bytes-Bounded f (b ∷ p) h =
      take_bytes-Bounded (take_byte starts continues f b) p (take_byte-Bounded f b h)

  take_bytes-append :
      (f : Framer) (p q : List ℕ)
      → take_bytes starts continues f (p ++ q)
        ≡ take_bytes starts continues (take_bytes starts continues f p) q
  unfolding take_bytes
  take_bytes-append f [] q = refl
  take_bytes-append f (b ∷ p) q = take_bytes-append (take_byte starts continues f b) p q

  -- For an open framer whose buffer is within 64 KiB the loop of Write, with as many rounds as
  -- bytes, gives the framer that takes the bytes one at a time: a boundary ends the line,
  -- another byte joins it while there is room, and a byte that finds no room makes the line
  -- oversized.
  pub write-take_bytes :
      (f : Framer) (p : List ℕ)
      → Bounded f
      → f.closed ≡ false
      → write starts continues f p ≡ some (take_bytes starts continues f p)
  unfolding write
  write-take_bytes f p h c =
      unless_closed f.closed (some (write_loop starts continues (length p) f p)) c
      ∙ ap (λ g. some g) (write_loop-take_bytes starts continues (length p) f p (omega arith) h)

  -- For an open framer whose buffer is within 64 KiB, in every mode, a write of some bytes
  -- followed by a write of more leaves the same framer, with the same records, as one write of
  -- all of them.
  pub write-append :
      (f g : Framer) (p q : List ℕ)
      → Bounded f
      → f.closed ≡ false
      → write starts continues f p ≡ some g
      → write starts continues f (p ++ q) ≡ write starts continues g q
  write-append f g p q h c e =
      let same =
        some-injective (take_bytes starts continues f p) g (sym (write-take_bytes f p h c) ∙ e) in
      write-take_bytes f (p ++ q) h c
      ∙ ap (λ x. some x) (take_bytes-append f p q)
      ∙ sym (
          write-take_bytes (take_bytes starts continues f p) q (take_bytes-Bounded f p h)
            (take_bytes-closed f p ∙ c))
      ∙ ap (λ x. write starts continues x q) same
