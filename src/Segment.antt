-- ===== src/Segment.antt =====
-- src/data/segment_writer.h, segment_writer.cpp and segment_sealer.cpp: the append-only writer of
-- one segment file. The output stream is the bytes that reached the file, those that wait in its
-- buffer, whether it is good, and the number of bytes that the device still takes; sending more than
-- that puts the stream in the fail state, which it does not leave, and leaves the file as it was.
-- Whether a write is held in the buffer or sent is up to the stream: `holds` tells it from the number
-- of bytes that wait and of those that are written. A method holds the writer's mutex, so a method is
-- one step.
pub mod Alignment
pub mod Reader
pub mod Engine
pub mod Appending
pub mod Growth
pub mod RoundTrip
mod Tests
use openfs.Common.{
  ℕ, zero, suc, ◌+◌, ◌-◌, ◌*◌, ◌/◌, ◌%◌, ◌^◌, List, [], ◌∷◌, ◌++◌, Bool, true, false, ◌&&◌, length,
  replicate, ltb, leb, if◌then◌else◌, bit_and, u64_mod, le_bytes,
}
use openfs.Types.{
  BlkLevel, l0, l1, l2, l3, l4, other_level, Result, ok, err, ◌>>=◌, invalid_argument, no_space,
  io_error,
}

-- kSegmentHeaderSize, kSegmentFooterSize, kBlockHeaderSize, kBlockAlignment
abbrev pub segment_header_size : ℕ
segment_header_size = 4096

abbrev pub segment_footer_size : ℕ
segment_footer_size = 4096

abbrev pub block_header_size : ℕ
block_header_size = 64

abbrev pub block_alignment : ℕ
block_alignment = 4096

-- kSegmentMagic, "OFSSG001"
abbrev pub segment_magic : List ℕ
segment_magic = b'O' ∷ b'F' ∷ b'S' ∷ b'S' ∷ b'G' ∷ b'0' ∷ b'0' ∷ b'1' ∷ []

pub record Stream : Type 0 where
  pub bytes : List ℕ
  pub pending : List ℕ
  pub is_good : Bool
  pub room : ℕ
  pub holds : ℕ → ℕ → Bool

-- `file_.flush()`; no method but `Seal` looks at what becomes of it, before a later write.
unfoldable pub flush : Stream → Stream
flush f =
    if f.is_good && leb (length f.pending) f.room
    then record f { bytes = f.bytes ++ f.pending; pending = []; room = f.room - length f.pending }
    else record f { is_good = false }

unfoldable pub write : Stream → List ℕ → Stream
write f bytes =
    let waiting : Stream = record f { pending = f.pending ++ bytes } in
    let sent = flush waiting in
    if f.is_good
    then (if f.holds (length f.pending) (length bytes)
        then waiting
        else if sent.is_good
        then sent
        else record f { is_good = false })
    else f

pub record SegmentWriter : Type 0 where
  pub segment_id : ℕ
  pub max_size : ℕ
  pub current_offset : ℕ
  pub file : Stream
  pub sealed : Bool

-- A header or footer, padded with zeros to `size` bytes.
abbrev pub padded : ℕ → List ℕ → List ℕ
padded size bytes = bytes ++ replicate (size - length bytes) 0

unfoldable pub write_header : SegmentWriter → SegmentWriter × Result (Unit {0})
write_header w =
    let f = write w.file (padded segment_header_size (segment_magic ++ le_bytes 8 w.segment_id)) in
    if f.is_good
    then (record w { file = f; current_offset = segment_header_size }, ok tt)
    else (record w { file = f }, err io_error)

-- `SegmentWriter(segment_id, path, max_size)`, with the stream that opening the path gives.
unfoldable pub new_writer : ℕ → ℕ → Stream → SegmentWriter
new_writer segment_id max_size file =
    let w : SegmentWriter = record {
      segment_id = segment_id;
      max_size = max_size;
      current_offset = 0;
      file = file;
      sealed = false;
    } in
    if file.is_good then (write_header w).0 else w

unfoldable pub is_full : SegmentWriter → Bool
is_full w = ltb w.max_size ((w.current_offset + (block_header_size + block_alignment)) % u64_mod)

-- `(offset + kBlockAlignment - 1) & ~(uint64_t(kBlockAlignment) - 1)`
unfoldable pub align : ℕ → ℕ
align offset = bit_and ((offset + block_alignment - 1) % u64_mod) (u64_mod - block_alignment)

-- `max_size_ - kSegmentFooterSize`, which wraps.
unfoldable pub footer_pos : SegmentWriter → ℕ
footer_pos w = (w.max_size + u64_mod - segment_footer_size) % u64_mod

abbrev pub level_byte : BlkLevel → ℕ
level_byte l0 = 0
level_byte l1 = 1
level_byte l2 = 2
level_byte l3 = 3
level_byte l4 = 4
level_byte (other_level byte) = byte % 256

-- The 64 bytes before a block.
unfoldable pub block_header : ℕ → BlkLevel → ℕ → ℕ → List ℕ
unfolding le_bytes
block_header block_id level data_size crc32 =
    le_bytes 8 block_id
    ++ (level_byte level ∷ 0 ∷ 0 ∷ 0 ∷ [])
    ++ le_bytes 4 data_size
    ++ le_bytes 4 crc32
    ++ replicate 44 0

-- The zeros up to the aligned offset.
unfoldable pub pad_to : SegmentWriter → ℕ → SegmentWriter × Result (Unit {0})
pad_to w aligned =
    let f = write w.file (replicate (aligned - w.current_offset) 0) in
    if ltb w.current_offset aligned
    then (if f.is_good
        then (record w { file = f; current_offset = aligned }, ok tt)
        else (record w { file = f }, err io_error))
    else (w, ok tt)

-- The header and the data, and then the new offset.
unfoldable pub write_payload : SegmentWriter → ℕ → BlkLevel → List ℕ → ℕ → SegmentWriter × Result ℕ
write_payload w block_id level payload crc32 =
    let f = write w.file (block_header block_id level (length payload) crc32) in
    let g = write f payload in
    if f.is_good
    then (if g.is_good
        then (
          record w {
            file = flush g;
            current_offset = (w.current_offset + (block_header_size + length payload)) % u64_mod;
          },
          ok w.current_offset,
        )
        else (record w { file = g }, err io_error))
    else (record w { file = f }, err io_error)

-- `WriteBlock`; `data_size`, a `uint32_t`, is the length of the payload.
unfoldable pub write_block : SegmentWriter → ℕ → BlkLevel → List ℕ → ℕ → SegmentWriter × Result ℕ
write_block w block_id level payload crc32 =
    let aligned = align w.current_offset in
    let (padded_w, r) = pad_to w aligned in
    if w.sealed
    then (w, err invalid_argument)
    else if ltb (footer_pos w) ((aligned + block_header_size + length payload) % u64_mod)
    then (w, err no_space)
    else elim r [
      | err s ↦ (padded_w, err s)
      | ok _ ↦ write_payload padded_w block_id level payload crc32
    ]

-- `Seal` and `SealSegment`, which only logs in addition. Seeking sends what waits in the buffer;
-- beyond the end it leaves zeros, once the footer is sent.
unfoldable pub seal : SegmentWriter → SegmentWriter × Result (Unit {0})
seal w =
    let gap = if ltb w.current_offset (footer_pos w) then footer_pos w - w.current_offset else 0 in
    let sought = if ltb w.current_offset (footer_pos w) then flush w.file else w.file in
    let f =
      write (record sought { bytes = sought.bytes ++ replicate gap 0 })
        (padded segment_footer_size
          (segment_magic ++ le_bytes 8 w.segment_id ++ le_bytes 8 w.current_offset)) in
    let last = flush f in
    let kept : Stream = if last.is_good then last else record sought { is_good = false } in
    if w.sealed
    then (w, ok tt)
    else if f.is_good
    then (record w { file = kept; sealed = true }, ok tt)
    else (record w { file = kept }, err io_error)
