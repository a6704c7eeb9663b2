-- ===== src/Protocol/Frame/Writer.antt =====
-- What the bounded writer has taken when the serializer ends.
use agent_db.Base.{
  ℕ, zero, suc, ◌+◌, ◌-◌, ◌≤◌, ◌<◌, ◌≡◌, refl, ap, ◌∙◌, inl, inr, List, [], ◌∷◌, ◌++◌, take, length,
  length-append, true, false, Option, some, ltb, ltb→lt, Bool-cases, arith,
}
use mathlib.Core.List.{append_assoc, append-nil}
use agent_db.Protocol.Frame.{BoundedWriter, write, to_writer}

-- The text of a serialized value: its buffers in their order.
abbrev pub concat : List (List ℕ) → List ℕ
concat [] = []
concat (buffer ∷ buffers) = buffer ++ concat buffers

pub length-take : (n : ℕ) (xs : List ℕ) → n ≤ length xs → length (take n xs) ≡ n
length-take zero xs h = refl
length-take (suc n) [] h = absurd (omega arith)
length-take (suc n) (x ∷ xs) h = ap suc (length-take n xs (omega arith))

write_fits :
    (buffer : List ℕ) (writer : BoundedWriter)
    → length writer.bytes + length buffer ≤ writer.maximum
    → write buffer writer ≡ (record writer { bytes = writer.bytes ++ buffer }, true)
unfolding write
write_fits buffer writer h =
    let fits : ltb (writer.maximum - length writer.bytes) (length buffer) ≡ false = ground arith in
    rw fits refl

write_overflows :
    (buffer : List ℕ) (writer : BoundedWriter)
    → length writer.bytes ≤ writer.maximum
    → writer.maximum < length writer.bytes + length buffer
    → write buffer writer ≡ (
      record writer {
        bytes = writer.bytes ++ take (writer.maximum - length writer.bytes) buffer;
        overflowed = true;
      },
      false,
    )
unfolding write
write_overflows buffer writer b h =
    let over : ltb (writer.maximum - length writer.bytes) (length buffer) ≡ true = ground arith in
    rw over refl

-- A text that fits is written whole.
pub to_writer_fits :
    (buffers : List (List ℕ)) (failure : Option (ℕ × ℕ)) (writer : BoundedWriter)
    → length writer.bytes + length (concat buffers) ≤ writer.maximum
    → to_writer buffers failure writer
      ≡ (record writer { bytes = writer.bytes ++ concat buffers }, failure)
unfolding to_writer
to_writer_fits [] failure writer h = rw (append-nil writer.bytes) refl
to_writer_fits (buffer ∷ buffers) failure writer h =
    let all : length (buffer ++ concat buffers) ≡ length buffer + length (concat buffers) =
      length-append buffer (concat buffers) in
    let grown : length (writer.bytes ++ buffer) ≡ length writer.bytes + length buffer =
      length-append writer.bytes buffer in
    rw (write_fits buffer writer (omega arith)) (
      to_writer_fits buffers failure (record writer { bytes = writer.bytes ++ buffer })
        (omega arith)
      ∙ ap (λ b. (record writer { bytes = b }, failure))
          (append_assoc writer.bytes buffer (concat buffers)))

-- One that does not fit ends in the writer's own error, with the writer full and marked.
pub to_writer_overflows :
    (buffers : List (List ℕ)) (failure : Option (ℕ × ℕ)) (writer : BoundedWriter)
    → length writer.bytes ≤ writer.maximum
    → writer.maximum < length writer.bytes + length (concat buffers)
    → (full : BoundedWriter) × (to_writer buffers failure writer ≡ (full, some (0, 0)))
      × (full.overflowed ≡ true)
      × (length full.bytes ≡ writer.maximum)
unfolding to_writer
to_writer_overflows [] failure writer b h = absurd (omega arith)
to_writer_overflows (buffer ∷ buffers) failure writer b h =
    let all : length (buffer ++ concat buffers) ≡ length buffer + length (concat buffers) =
      length-append buffer (concat buffers) in
    let grown : length (writer.bytes ++ buffer) ≡ length writer.bytes + length buffer =
      length-append writer.bytes buffer in
    elim (Bool-cases (ltb writer.maximum (length writer.bytes + length buffer))) [
      | inl over ↦
          let cut = take (writer.maximum - length writer.bytes) buffer in
          let over' : writer.maximum < length writer.bytes + length buffer = ltb→lt _ _ over in
          let taken : length cut ≡ writer.maximum - length writer.bytes =
            length-take (writer.maximum - length writer.bytes) buffer (omega arith) in
          (
            record writer { bytes = writer.bytes ++ cut; overflowed = true },
            rw (write_overflows buffer writer b over') refl,
            refl,
            omega (arith, length-append writer.bytes cut),
          )
      | inr fits ↦
          let fits' : length writer.bytes + length buffer ≤ writer.maximum = ground (arith, fits) in
          rw (write_fits buffer writer fits') (
            to_writer_overflows buffers failure (record writer { bytes = writer.bytes ++ buffer })
              (omega arith) (omega arith))
    ]
