-- ===== src/Segment/Reader.antt =====
-- src/data/segment_reader.cpp: reading a block back from the bytes of its segment file.
use openfs.Common.{
  ℕ, ◌+◌, ◌^◌, ◌<◌, ◌≡◌, List, ◌++◌, length, take, drop, take-drop-append, take-length_append,
  drop-append, ltb, if◌then◌else◌, false, arith, refl, ap, ◌∙◌, sym, Bool-cases, inl, inr, ltb→le,
  append_assoc, le_bytes, le_value, le_value-le_bytes,
}
use openfs.Types.{BlkLevel, Result, ok, err, io_error}
use openfs.Segment.{block_header}
use openfs.Segment.Appending.{length-block_header}

-- The body of `ReadBlock` after the file is opened: the header at the offset, then the data. A read
-- of fewer bytes than asked for fails the stream.
unfoldable pub read_at : List ℕ → ℕ → Result (List ℕ × ℕ)
read_at bytes offset =
    let header = take 64 (drop offset bytes) in
    let data_size = le_value (take 4 (drop 12 header)) in
    let crc32 = le_value (take 4 (drop 16 header)) in
    let payload = take data_size (drop (offset + 64) bytes) in
    if ltb (length header) 64
    then err io_error
    else if ltb (length payload) data_size
    then err io_error
    else ok (payload, crc32)

-- What was read stays readable when the file grows.
pub read_at-append :
    (bytes more : List ℕ) (offset : ℕ) (r : List ℕ × ℕ)
    → read_at bytes offset ≡ ok r
    → read_at (bytes ++ more) offset ≡ ok r
unfolding read_at
read_at-append bytes more offset r read =
    let header : List ℕ = take 64 (drop offset bytes) in
    let size = le_value (take 4 (drop 12 header)) in
    elim (Bool-cases (ltb (length header) 64)) [
      | inl short ↦ ground arith
      | inr full ↦ elim (Bool-cases (ltb (length (take size (drop (offset + 64) bytes))) size)) [
        | inl short ↦ ground arith
        | inr whole ↦
            rw
              (
                take-drop-append 64 offset bytes more (ltb→le _ _ full),
                take-drop-append size (offset + 64) bytes more (ltb→le _ _ whole),
              )
              read
      ]
    ]

not_less : (n : ℕ) → ltb n n ≡ false
not_less n = ground arith

header_fields :
    (block_id : ℕ) (level : BlkLevel) (size crc32 : ℕ)
    → size < 2 ^ 32
    → crc32 < 2 ^ 32
    → (le_value (take 4 (drop 12 (block_header block_id level size crc32))) ≡ size)
      × (le_value (take 4 (drop 16 (block_header block_id level size crc32))) ≡ crc32)
unfolding block_header le_bytes
header_fields block_id level size crc32 small small' = (
  unfold le_bytes in le_value-le_bytes 4 size small,
  unfold le_bytes in le_value-le_bytes 4 crc32 small',
)

-- A block that follows `front` is read back with its checksum.
pub read_at-block_header :
    (front more payload : List ℕ) (block_id : ℕ) (level : BlkLevel) (crc32 : ℕ)
    → length payload < 2 ^ 32
    → crc32 < 2 ^ 32
    → read_at
        (front ++ ((block_header block_id level (length payload) crc32 ++ payload) ++ more))
        (length front)
      ≡ ok (payload, crc32)
unfolding read_at
read_at-block_header front more payload block_id level crc32 small small' =
    let header = block_header block_id level (length payload) crc32 in
    let sized : length header ≡ 64 = length-block_header block_id level (length payload) crc32 in
    let whole : List ℕ = front ++ ((header ++ payload) ++ more) in
    let shape : (header ++ payload) ++ more ≡ header ++ (payload ++ more) =
      append_assoc header payload more in
    let at : drop (length front) whole ≡ header ++ (payload ++ more) =
      drop-append (length front) 0 front ((header ++ payload) ++ more) (omega arith) ∙ shape in
    let past : drop (length front + 64) whole ≡ payload ++ more =
      drop-append (length front + 64) 64 front ((header ++ payload) ++ more) (omega arith)
      ∙ ap (λ (t : List ℕ). drop 64 t) shape
      ∙ drop-append 64 0 header (payload ++ more) (omega (arith, sized)) in
    let first : take 64 (header ++ (payload ++ more)) ≡ header =
      ap (λ (n : ℕ). take n (header ++ (payload ++ more))) (sym sized)
      ∙ take-length_append header (payload ++ more) in
    let (size, crc) = header_fields block_id level (length payload) crc32 small small' in
    let here : take 64 (drop (length front) whole) ≡ header =
      ap (λ (t : List ℕ). take 64 t) at ∙ first in
    let there : take (length payload) (drop (length front + 64) whole) ≡ payload =
      ap (λ (t : List ℕ). take (length payload) t) past ∙ take-length_append payload more in
    let full : ltb (length header) 64 ≡ false = rw sized refl in
    rw (here, size, there, crc, full, not_less (length payload)) refl
