-- ===== src/Logs/Boundaries.antt =====
-- `Write` against a framer that takes its input a byte at a time: where the writes are cut does not
-- matter.
use ding.Base.{
  ℕ, zero, suc, ◌≤◌, ◌<◌, ◌≡◌, refl, ap, sym, ◌∙◌, Bool, true, false, List, [], ◌∷◌, ◌++◌, Option,
  none, some, length, length-append, if◌then◌else◌, arith, Each,
}
use ding.Logs.Frame.{
  Framer, max_record_bytes, is_end, advanced, cut, joined, take_part, end_line, write_loop,
}

abbrev pub Bounded : Framer → Type 0
Bounded f = length f.buf ≤ max_record_bytes

append-nil : (xs : List ℕ) → xs ++ [] ≡ xs
append-nil [] = refl
append-nil (x ∷ xs) = ap (λ ys. x ∷ ys) (append-nil xs)

append-snoc : (xs ys : List ℕ) (b : ℕ) → (xs ++ (b ∷ [])) ++ ys ≡ xs ++ (b ∷ ys)
append-snoc [] ys b = refl
append-snoc (x ∷ xs) ys b = ap (λ zs. x ∷ zs) (append-snoc xs ys b)

take_part-nil : (f : Framer) → Bounded f → take_part f [] ≡ f
unfolding take_part
take_part-nil f h = ground (arith, h, append-nil f.buf)

take_part-carriage : (f : Framer) (p : List ℕ) → (take_part f p).carriage_return ≡ f.carriage_return
unfolding take_part
take_part-carriage f p = ground arith

pub take_part-Bounded : (f : Framer) (p : List ℕ) → Bounded f → Bounded (take_part f p)
unfolding take_part
take_part-Bounded f p h = ground (arith, h, length-append f.buf p)

take_part-snoc :
    (f : Framer) (b : ℕ) (p : List ℕ) (n : ℕ)
    → advanced (take_part (advanced (take_part f (b ∷ [])) 1) p) n
      ≡ advanced (take_part f (b ∷ p)) (suc n)
unfolding take_part advanced
take_part-snoc f b p n = ground (arith, append-snoc f.buf p b, length-append f.buf (b ∷ []))

cut-Each : (ends : ℕ → Bool) (p : List ℕ) → Each (λ rest. length rest < length p) (cut ends p).1
unfolding cut
cut-Each ends [] = tt
cut-Each ends (b ∷ p) = cases (ends b) (cut ends p) (cut-Each ends p)
  where
    cases :
        (e : Bool) (r : List ℕ × Option (List ℕ))
        → Each (λ rest. length rest < length p) r.1
        → Each (λ rest. length rest < suc (length p)) (joined e b p r).1
    cases true r h = omega arith
    cases false (part, none) h = tt
    cases false (part, some rest) h = omega (arith, h)

advanced-zero : (f : Framer) → advanced f 0 ≡ f
unfolding advanced
advanced-zero f = ground arith

module _ (starts continues : List ℕ → Bool) where
  -- One byte: it ends the line, or joins it while there is room.
  unfoldable pub take_byte : Framer → ℕ → Framer
  take_byte f b =
      if is_end f.carriage_return b
      then end_line starts continues (advanced f 1)
      else advanced (take_part f (b ∷ [])) 1

  unfoldable pub take_bytes : Framer → List ℕ → Framer
  unfolding take_byte
  take_bytes f [] = f
  take_bytes f (b ∷ p) = take_bytes (take_byte f b) p

  -- A round of `Write`, and the bytes after it one at a time.
  after : Framer → ℕ → List ℕ → Option (List ℕ) → Framer
  after f n part none = advanced (take_part f part) n
  after f n part (some rest) =
      take_bytes (end_line starts continues (advanced (take_part f part) (suc (length part)))) rest

  after-snoc :
      (f : Framer) (b n : ℕ) (part : List ℕ) (rest : Option (List ℕ))
      → after (advanced (take_part f (b ∷ [])) 1) n part rest ≡ after f (suc n) (b ∷ part) rest
  unfolding after
  after-snoc f b n part none = take_part-snoc f b part n
  after-snoc f b n part (some rest) =
      ap (λ g. take_bytes (end_line starts continues g) rest)
        (take_part-snoc f b part (suc (length part)))

  take_byte-end :
      (f : Framer) (b : ℕ)
      → Bounded f
      → is_end f.carriage_return b ≡ true
      → take_byte f b ≡ end_line starts continues (advanced (take_part f []) 1)
  unfolding take_byte
  take_byte-end f b h e = rw (e, take_part-nil f h) refl

  take_byte-join :
      (f : Framer) (b : ℕ)
      → is_end f.carriage_return b ≡ false
      → take_byte f b ≡ advanced (take_part f (b ∷ [])) 1
  unfolding take_byte
  take_byte-join f b e = rw e refl

  advanced-carriage :
      (f : Framer) (b : ℕ) → (advanced (take_part f (b ∷ [])) 1).carriage_return ≡ f.carriage_return
  unfolding advanced
  advanced-carriage f b = take_part-carriage f (b ∷ [])

  advanced-Bounded : (f : Framer) (b : ℕ) → Bounded f → Bounded (advanced (take_part f (b ∷ [])) 1)
  unfolding advanced
  advanced-Bounded f b h = take_part-Bounded f (b ∷ []) h

  take_bytes-after :
      (cr : Bool) (f : Framer) (p : List ℕ)
      → f.carriage_return ≡ cr
      → Bounded f
      → take_bytes f p ≡ after f (length p) (cut (is_end cr) p).0 (cut (is_end cr) p).1
  unfolding take_bytes after cut
  take_bytes-after cr f [] c h = sym (ap (λ g. advanced g 0) (take_part-nil f h) ∙ advanced-zero f)
  take_bytes-after cr f (b ∷ p) c h = cases (is_end cr b) refl (
      take_bytes-after cr (advanced (take_part f (b ∷ [])) 1) p (advanced-carriage f b ∙ c)
        (advanced-Bounded f b h))
    where
      cases :
          (e : Bool)
          → is_end cr b ≡ e
          → take_bytes (advanced (take_part f (b ∷ [])) 1) p
            ≡ after
                (advanced (take_part f (b ∷ [])) 1)
                (length p)
                (cut (is_end cr) p).0
                (cut (is_end cr) p).1
          → take_bytes f (b ∷ p)
            ≡ after f
                (suc (length p))
                (joined e b p (cut (is_end cr) p)).0
                (joined e b p (cut (is_end cr) p)).1
      cases true e ih = ap (λ g. take_bytes g p) (take_byte-end f b h (ap (λ x. is_end x b) c ∙ e))
      cases false e ih =
          ap (λ g. take_bytes g p) (take_byte-join f b (ap (λ x. is_end x b) c ∙ e))
          ∙ ih
          ∙ after-snoc f b (length p) (cut (is_end cr) p).0 (cut (is_end cr) p).1

  -- Enough fuel: a round for each byte.
  pub write_loop-take_bytes :
      (n : ℕ) (f : Framer) (p : List ℕ)
      → length p ≤ n
      → Bounded f
      → write_loop starts continues n f p ≡ take_bytes f p
  unfolding write_loop after take_bytes end_line
  write_loop-take_bytes zero f [] l h = refl
  write_loop-take_bytes zero f (b ∷ p) l h = ground arith
  write_loop-take_bytes (suc n) f [] l h = refl
  write_loop-take_bytes (suc n) f (b ∷ p) l h =
      cases (cut (is_end f.carriage_return) (b ∷ p)).0 (cut (is_end f.carriage_return) (b ∷ p)).1
        (cut-Each (is_end f.carriage_return) (b ∷ p))
        (λ g rest k. write_loop-take_bytes n g rest (omega (arith, k, l)))
      ∙ sym (take_bytes-after f.carriage_return f (b ∷ p) refl h)
    where
      cases :
          (part : List ℕ) (o : Option (List ℕ))
          → Each (λ rest. length rest < length (b ∷ p)) o
          → ((g : Framer) (rest : List ℕ)
              → length rest < length (b ∷ p)
              → Bounded g
              → write_loop starts continues n g rest ≡ take_bytes g rest)
          → (elim o [
            | none ↦ advanced (take_part f part) (length (b ∷ p))
            | some rest ↦
                write_loop starts continues n
                  (end_line starts continues (advanced (take_part f part) (suc (length part))))
                  rest
          ])
            ≡ after f (length (b ∷ p)) part o
      cases part none k ih = refl
      cases part (some rest) k ih =
          ih (end_line starts continues (advanced (take_part f part) (suc (length part)))) rest k
            (omega arith)
