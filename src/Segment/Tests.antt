-- ===== src/Segment/Tests.antt =====
-- Runs of the writer, the reader and the engine, and instances of the theorems about them.
use openfs.Common.{
  ℕ, ◌+◌, ◌%◌, ◌≤◌, ◌≡◌, List, [], ◌∷◌, Bool, ltb, length, replicate, true, arith, refl, le_bytes,
  le_value,
}
use openfs.Common.Map
use openfs.Types.{l0, ok, err, io_error}
use openfs.Segment.{
  Stream, SegmentWriter, flush, write, write_header, new_writer, is_full, pad_to, write_payload,
  write_block, seal, footer_pos, align, block_header,
}
use openfs.Segment.Reader.{read_at}
use openfs.Segment.Appending
use openfs.Segment.Appending.{new_writer-IsValid, write_block-IsValid}
use openfs.Segment.RoundTrip.{read_at-write_block}
use openfs.Segment.Growth.{Grows-refl}
use openfs.Segment.Engine.{
  SegmentEngine, new_engine, disk_files, read_block, finish, create_new_segment, current, roll_over,
  ready, write_engine_block,
}
use openfs.Segment.Engine.Durability
use openfs.Segment.Engine.Durability.{read_block-write_engine_block}

writing : Unit {0}
unfolding flush write write_header new_writer is_full pad_to write_payload write_block seal
    footer_pos align block_header le_bytes le_value read_at
writing = tt

engine : Unit {0}
unfolding writing disk_files read_block finish create_new_segment current roll_over ready
    write_engine_block Map.find Map.put
engine = tt

-- A buffer of 4095 bytes: small writes are held in it.
abbrev holds : ℕ → ℕ → Bool
holds held more = ltb (held + more) 4096

abbrev stream : ℕ → Stream
stream room = record { bytes = []; pending = []; is_good = true; room = room; holds = holds }

abbrev writer : SegmentWriter
writer = new_writer 1 20000 (stream 20000)

abbrev payload : List ℕ
payload = 7 ∷ 8 ∷ 9 ∷ []

writer-IsValid : Appending.IsValid writer
writer-IsValid = new_writer-IsValid 1 20000 20000 holds (omega arith) (omega arith) (omega arith)

write_block-IsValid_example :
    (4096 % 4096 ≡ 0)
    × (writer.current_offset ≤ 4096)
    × ((write_block writer 5 l0 payload 77).0.current_offset ≡ 4096 + 64 + length payload)
    × (4096 + 64 + length payload + 4096 ≤ writer.max_size)
    × Appending.IsValid (write_block writer 5 l0 payload 77).0
unfolding writing
write_block-IsValid_example =
    write_block-IsValid writer 5 l0 payload 77 4096 writer-IsValid (omega arith) refl

read_at-write_block_example :
    read_at (write_block writer 5 l0 payload 77).0.file.bytes 4096 ≡ ok (payload, 77)
unfolding writing
read_at-write_block_example =
    read_at-write_block writer 5 l0 payload 77 4096 writer-IsValid (omega arith) (omega arith) refl
      (omega arith) (write_block writer 5 l0 payload 77).0.file.bytes
      (Grows-refl (write_block writer 5 l0 payload 77).0.file.bytes)

-- On a device that has room for the header of the segment alone, the block is accepted, and cannot
-- be read: the flush failed.
abbrev tight : SegmentWriter
tight = new_writer 1 20000 (stream 4100)

lost :
    ((write_block tight 5 l0 payload 77).1 ≡ ok 4096)
    × (read_at (write_block tight 5 l0 payload 77).0.file.bytes 4096 ≡ err io_error)
unfolding writing
lost = (refl, refl)

abbrev opened : ℕ → Stream
opened id = stream 20000

abbrev one_block : SegmentEngine
one_block = (write_engine_block opened (new_engine 20000 []) 5 l0 payload 77).0

-- The block is in segment 1, and a block that does not fit any more goes to segment 2.
rolls_over :
    (read_block one_block 1 4096 ≡ ok (payload, 77))
    × ((write_engine_block opened one_block 6 l0 (replicate 8000 3) 78).1 ≡ ok (2, 4096))
unfolding engine
rolls_over = (refl, refl)

new_engine-IsValid : Durability.IsValid (new_engine 20000 [])
unfolding Map.find
new_engine-IsValid = ((λ k bytes h. ground arith), λ w h. ground arith)

one_block-IsValid : Durability.IsValid one_block
one_block-IsValid =
    (read_block-write_engine_block opened (new_engine 20000 []) 5 l0 payload 77 new_engine-IsValid
      (omega arith)).0

one_block_next : one_block.next_segment_id ≡ 2
unfolding engine
one_block_next = refl

read_block-write_engine_block_example :
    Durability.IsValid (write_engine_block opened one_block 6 l0 payload 78).0
    × ((write_engine_block opened one_block 6 l0 payload 78).0.next_segment_id
        ≤ one_block.next_segment_id + 3)
    × ((segment_id offset : ℕ) (r : List ℕ × ℕ)
        → read_block one_block segment_id offset ≡ ok r
        → read_block (write_engine_block opened one_block 6 l0 payload 78).0 segment_id offset
          ≡ ok r)
read_block-write_engine_block_example =
    read_block-write_engine_block opened one_block 6 l0 payload 78 one_block-IsValid
      (omega (arith, one_block_next))
