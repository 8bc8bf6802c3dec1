-- ===== src/Segment/RoundTrip.antt =====
-- A block that the writer accepts is read back from its offset.
use openfs.Common.{
  ℕ, ◌-◌, ◌+◌, ◌≤◌, ◌^◌, ◌<◌, ◌≡◌, List, ◌++◌, length, replicate, length-append, length-replicate,
  append_assoc, arith, ap, ◌∙◌, subst,
}
use openfs.Types.{BlkLevel, ok}
use openfs.Segment.{Stream, SegmentWriter, write_block, block_header}
use openfs.Segment.Appending.{written, flush-written, IsValid, write_block_lem, write_block-IsValid}
use openfs.Segment.Growth.{Grows}
use openfs.Segment.Reader.{read_at, read_at-block_header}

module _ (w : SegmentWriter) (block_id : ℕ) (level : BlkLevel) (payload : List ℕ)
    (crc32 offset : ℕ) where
  -- When a valid segment writer accepts a block whose size and checksum fit 32 bits, and the
  -- device has room for the file up to the end of the block, reading the offset that it returned
  -- gives the block and its checksum, also after the file has grown further, whatever the stream
  -- keeps in its buffer between the writes.
  pub read_at-write_block :
      IsValid w
      → length payload < 2 ^ 32
      → crc32 < 2 ^ 32
      → (write_block w block_id level payload crc32).1 ≡ ok offset
      → offset + 64 + length payload ≤ length w.file.bytes + w.file.room
      → (later : List ℕ) → Grows (write_block w block_id level payload crc32).0.file.bytes later
      → read_at later offset ≡ ok (payload, crc32)
  read_at-write_block v small small' done room later (more, grown) =
      let a = write_block_lem w block_id level payload crc32 offset v small done in
      let (_, above, _, _, _) =
        write_block-IsValid w block_id level payload crc32 offset v small done in
      let zeros : List ℕ = replicate (offset - w.current_offset) 0 in
      let front : List ℕ = written w.file ++ zeros in
      let block : List ℕ = block_header block_id level (length payload) crc32 ++ payload in
      let ends : length front ≡ offset = omega (
        arith,
        length-append (written w.file) zeros,
        length-replicate {A = ℕ} (offset - w.current_offset) 0,
        v.in_step,
        above,
      ) in
      let (_, _, _, _, v') =
        write_block-IsValid w block_id level payload crc32 offset v small done in
      let (g, file, good, all, far) = a.flushed in
      let arrived : (write_block w block_id level payload crc32).0.file.bytes
          ≡ written (write_block w block_id level payload crc32).0.file =
        ap (λ (f : Stream). f.bytes) file
        ∙ flush-written g good
            (omega (arith, ap (λ (t : List ℕ). length t) all, v'.in_step, a.new_offset, far, room))
        ∙ all in
      let shape : later ≡ front ++ (block ++ more) =
        grown
        ∙ ap (λ (t : List ℕ). t ++ more) (arrived ∙ a.file_bytes)
        ∙ append_assoc front block more in
      subst (λ (n : ℕ). read_at later n ≡ ok (payload, crc32)) ends
        (rw shape (read_at-block_header front more payload block_id level crc32 small small'))
