-- ===== src/Logs/Bounds.antt =====
-- The bound of 64 KiB on what a framer keeps and emits.
use ding.Base.{
  ℕ, ◌≤◌, ◌≡◌, sym, subst, ◌∙◌, Bool, true, false, ◌&&◌, List, [], ◌∷◌, Option, none, some, length,
  length-append, ltb, ◌==◌, if_either, All, All-append, arith,
}
use mathlib.Core.Option.{some-injective}
use ding.Logs.Frame.{
  Framer, Multiline, max_record_bytes, is_end, advanced, take_part, flush_multi, deliver_record,
  begin_record, continue_record, multi_line, line_under, line, end_line, write,
}
use ding.Logs.Boundaries.{Bounded, take_part-Bounded, take_byte, take_bytes}
use ding.Logs.Writes.{write-take_bytes}

abbrev pub Short : List ℕ → Type 0
Short bytes = length bytes ≤ max_record_bytes

abbrev pub Pending : Option Multiline → Type 0
Pending none = Unit
Pending (some m) = Short m.buf

pub record Fits (f : Framer) : Type 0 where
  pub buffer : Bounded f
  pub pending : Pending f.multi
  pub records : All (λ e. Short e.bytes) f.out

deliver_record-Fits :
    (f : Framer) (bytes : List ℕ) (invalid : Bool) (end : ℕ)
    → Fits f
    → Short bytes
    → Fits (deliver_record f bytes invalid end)
unfolding deliver_record
deliver_record-Fits f bytes invalid end h s = record {
  buffer = h.buffer;
  pending = h.pending;
  records = All-append (λ e. Short e.bytes) f.out _ h.records (s, tt);
}

flush_multi-Fits : (f : Framer) (m : Multiline) → Fits f → Short m.buf → Fits (flush_multi f m)
unfolding flush_multi
flush_multi-Fits f m h s =
    let d = deliver_record-Fits f m.buf m.invalid m.end h s in
    if_either Fits (m.lines == 0) _ _ h
      (record { buffer = d.buffer; pending = omega arith; records = d.records })

take_part-multi : (f : Framer) (p : List ℕ) → (take_part f p).multi ≡ f.multi
unfolding take_part
take_part-multi f p = ground arith

take_part-out : (f : Framer) (p : List ℕ) → (take_part f p).out ≡ f.out
unfolding take_part
take_part-out f p = ground arith

take_part-Fits : (f : Framer) (p : List ℕ) → Fits f → Fits (take_part f p)
take_part-Fits f p h = record {
  buffer = take_part-Bounded f p h.buffer;
  pending = subst Pending (sym (take_part-multi f p)) h.pending;
  records = subst (All (λ e. Short e.bytes)) (sym (take_part-out f p)) h.records;
}

module _ (starts continues : List ℕ → Bool) where
  begin_record-Fits :
      (f : Framer) (m : Multiline) (bytes : List ℕ)
      → Fits f
      → Short m.buf
      → Short bytes
      → Fits (begin_record starts continues f m bytes)
  unfolding begin_record
  begin_record-Fits f m bytes h s k =
      let d = flush_multi-Fits f m h s in
      record { buffer = d.buffer; pending = k; records = d.records }

  continue_record-Fits :
      (f : Framer) (m : Multiline) (bytes : List ℕ)
      → Fits f
      → Short m.buf
      → Fits (continue_record starts continues f m bytes)
  unfolding continue_record
  continue_record-Fits f m bytes h s = record {
    buffer = h.buffer;
    pending = ground (arith, s, length-append m.buf (10 ∷ bytes));
    records = h.records;
  }

  multi_line-Fits :
      (f : Framer) (m : Multiline) (bytes : List ℕ) (invalid : Bool)
      → Fits f
      → Short m.buf
      → Short bytes
      → Fits (multi_line starts continues f m bytes invalid)
  unfolding multi_line
  multi_line-Fits f m bytes true h s k =
      if_either Fits (ltb 0 m.lines) _ _
        (record { buffer = h.buffer; pending = s; records = h.records })
        (deliver_record-Fits f [] true f.read h (omega arith))
  multi_line-Fits f m bytes false h s k =
      if_either Fits (starts bytes) _ _ (begin_record-Fits f m bytes h s k) (
        if_either Fits (ltb 0 m.lines && continues bytes) _ _ (continue_record-Fits f m bytes h s)
          (deliver_record-Fits (flush_multi f m) bytes false f.read (flush_multi-Fits f m h s) k))

  line_under-Fits :
      (f : Framer) (bytes : List ℕ) (invalid : Bool) (o : Option Multiline)
      → Fits f
      → Pending o
      → Short bytes
      → Fits (line_under starts continues f bytes invalid o)
  unfolding line_under
  line_under-Fits f bytes invalid none h p k = deliver_record-Fits f bytes invalid f.read h k
  line_under-Fits f bytes invalid (some m) h p k = multi_line-Fits f m bytes invalid h p k

  end_line-Fits : (f : Framer) → Fits f → Fits (end_line starts continues f)
  unfolding end_line line
  end_line-Fits f h =
      let d = line_under-Fits f f.buf f.oversize f.multi h h.pending h.buffer in
      record { buffer = omega arith; pending = d.pending; records = d.records }

  advanced-Fits : (f : Framer) (n : ℕ) → Fits f → Fits (advanced f n)
  unfolding advanced
  advanced-Fits f n h = record { buffer = h.buffer; pending = h.pending; records = h.records }

  take_byte-Fits : (f : Framer) (b : ℕ) → Fits f → Fits (take_byte starts continues f b)
  unfolding take_byte
  take_byte-Fits f b h =
      if_either Fits (is_end f.carriage_return b) _ _
        (end_line-Fits (advanced f 1) (advanced-Fits f 1 h))
        (advanced-Fits (take_part f (b ∷ [])) 1 (take_part-Fits f (b ∷ []) h))

  take_bytes-Fits : (f : Framer) (p : List ℕ) → Fits f → Fits (take_bytes starts continues f p)
  unfolding take_bytes
  take_bytes-Fits f [] h = h
  take_bytes-Fits f (b ∷ p) h =
      take_bytes-Fits (take_byte starts continues f b) p (take_byte-Fits f b h)

  -- A write to an open framer keeps the bound of 64 KiB in every mode: the line buffer, the
  -- buffer of a multiline record and each record that was emitted are at most that long, if
  -- they were before.
  pub write-Fits :
      (f g : Framer) (p : List ℕ)
      → Fits f
      → f.closed ≡ false
      → write starts continues f p ≡ some g
      → Fits g
  write-Fits f g p h c e =
      subst Fits (some-injective _ g (sym (write-take_bytes starts continues f p h.buffer c) ∙ e))
        (take_bytes-Fits f p h)
