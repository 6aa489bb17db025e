-- ===== src/Logs/Frame.antt =====
-- internal/logs/frame.go and multiline.go: the Framer, which cuts written bytes into records.
use ding.Base.{
  ℕ, zero, suc, ◌+◌, ◌*◌, Bool, true, false, not, ◌&&◌, ◌||◌, List, [], ◌∷◌, ◌++◌, Option, none,
  some, length, ltb, ◌==◌, if◌then◌else◌,
}

abbrev pub max_record_bytes : ℕ
max_record_bytes = 64 * 1024

abbrev newline : ℕ
newline = 10

abbrev carriage : ℕ
carriage = 13

-- A record, and whether it is an invalid one.
pub record Emitted : Type 0 where
  pub bytes : List ℕ
  pub invalid : Bool

pub record Multiline : Type 0 where
  pub max_lines : ℕ
  pub lines : ℕ
  pub buf : List ℕ
  pub invalid : Bool
  pub end : ℕ
  pub epoch : ℕ

-- `out` is what `emit` was called with, in order.
pub record Framer : Type 0 where
  pub buf : List ℕ
  pub oversize : Bool
  pub read : ℕ
  pub complete : ℕ
  pub closed : Bool
  pub carriage_return : Bool
  pub multi : Option Multiline
  pub out : List Emitted

unfoldable pub deliver_record : Framer → List ℕ → Bool → ℕ → Framer
deliver_record f bytes invalid end = record f {
  complete = end;
  out = f.out ++ (record { bytes = bytes; invalid = invalid } ∷ []);
}

unfoldable pub flush_multi : Framer → Multiline → Framer
unfolding deliver_record
flush_multi f m = if m.lines == 0 then f else record (deliver_record f m.buf m.invalid m.end) {
  multi = some (record m { epoch = suc m.epoch; buf = []; lines = 0; invalid = false });
}

unfoldable pub flush : Framer → Framer
unfolding flush_multi
flush f = elim f.multi [ none ↦ f | some m ↦ flush_multi f m ]

unfoldable pub epoch_after : Multiline → ℕ
epoch_after m = if m.lines == 0 then m.epoch else suc m.epoch

-- A line ends at a newline, or at a carriage return where that is configured.
unfoldable pub is_end : Bool → ℕ → Bool
is_end cr b = (b == newline) || (cr && (b == carriage))

unfoldable pub advanced : Framer → ℕ → Framer
advanced f n = record f { read = f.read + n }

abbrev pub joined : Bool → ℕ → List ℕ → List ℕ × Option (List ℕ) → List ℕ × Option (List ℕ)
joined true b p rest = ([], some p)
joined false b p rest = (b ∷ rest.0, rest.1)

-- The bytes before the first boundary, and those after it, if there is one.
unfoldable pub cut : (ℕ → Bool) → List ℕ → List ℕ × Option (List ℕ)
cut ends [] = ([], none)
cut ends (b ∷ p) = joined (ends b) b p (cut ends p)

unfoldable pub take_part : Framer → List ℕ → Framer
take_part f part =
    if f.oversize
    then f
    else if ltb max_record_bytes (length f.buf + length part)
    then record f { oversize = true; buf = [] }
    else record f { buf = f.buf ++ part }

-- The patterns of a multiline configuration.
module _ (starts continues : List ℕ → Bool) where
  -- A record begins, after the one before it was flushed; its timer runs under the new epoch.
  unfoldable pub begin_record : Framer → Multiline → List ℕ → Framer
  unfolding flush_multi epoch_after
  begin_record f m bytes = record (flush_multi f m) {
    multi = some (record m {
      lines = 1;
      buf = bytes;
      invalid = (m.lines == 0) && m.invalid;
      end = f.read;
      epoch = suc (epoch_after m);
    });
  }

  unfoldable pub continue_record : Framer → Multiline → List ℕ → Framer
  continue_record f m bytes =
      let bad =
        m.invalid
        || (ltb m.max_lines (suc m.lines)
            || ltb max_record_bytes (length m.buf + 1 + length bytes)) in
      record f {
        multi = some (record m {
          lines = suc m.lines;
          end = f.read;
          invalid = bad;
          buf = if bad then m.buf else m.buf ++ (newline ∷ bytes);
        });
      }

  unfoldable pub multi_line : Framer → Multiline → List ℕ → Bool → Framer
  unfolding begin_record continue_record flush_multi deliver_record
  multi_line f m bytes true =
      if ltb 0 m.lines
      then record f { multi = some (record m { invalid = true; end = f.read }) }
      else deliver_record f [] true f.read
  multi_line f m bytes false =
      if starts bytes
      then begin_record f m bytes
      else if ltb 0 m.lines && continues bytes
      then continue_record f m bytes
      else deliver_record (flush_multi f m) bytes false f.read

  unfoldable pub line_under : Framer → List ℕ → Bool → Option Multiline → Framer
  unfolding multi_line deliver_record
  line_under f bytes invalid none = deliver_record f bytes invalid f.read
  line_under f bytes invalid (some m) = multi_line f m bytes invalid

  unfoldable pub line : Framer → List ℕ → Bool → Framer
  unfolding line_under
  line f bytes invalid = line_under f bytes invalid f.multi

  unfoldable pub end_line : Framer → Framer
  unfolding line
  end_line f = record (line f f.buf f.oversize) { buf = []; oversize = false }

  -- The loop of `Write` on the bytes that are left; each round takes one at least.
  unfoldable pub write_loop : ℕ → Framer → List ℕ → Framer
  unfolding take_part end_line cut advanced
  write_loop zero f p = f
  write_loop (suc fuel) f [] = f
  write_loop (suc fuel) f (b ∷ p) =
      let split = cut (is_end f.carriage_return) (b ∷ p) in
      let taken = take_part f split.0 in
      elim split.1 [
        | none ↦ advanced taken (length (b ∷ p))
        | some rest ↦ write_loop fuel (end_line (advanced taken (suc (length split.0)))) rest
      ]

  -- A closed framer takes nothing (ErrClosedPipe).
  unfoldable pub write : Framer → List ℕ → Option Framer
  unfolding write_loop
  write f p = if f.closed then none else some (write_loop (length p) f p)

  unfoldable pub close : Framer → Framer
  unfolding line flush
  close f =
      let last = if ltb 0 (length f.buf) || f.oversize then line f f.buf f.oversize else f in
      let flushed = flush last in
      if f.closed then f else record flushed { buf = []; oversize = false; closed = true }

-- The timer of a record that has begun.
unfoldable pub expire : Framer → ℕ → Framer
unfolding flush
expire f epoch = elim f.multi [
  | none ↦ f
  | some m ↦ if not f.closed && (m.epoch == epoch) then flush f else f
]

unfoldable pub discard : Framer → Framer
discard f = record f {
  closed = true;
  buf = [];
  multi = elim f.multi [ none ↦ none | some m ↦ some (record m { buf = [] }) ];
}
