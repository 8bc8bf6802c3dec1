-- ===== src/Segment/Engine.antt =====
-- src/data/segment_engine.h and segment_engine.cpp: the segments of a data directory. The files of
-- the segments before the active one are kept by segment id, which is what their path is made of.
-- `opened` gives the stream that opening a new segment's file yields. A method holds the engine's
-- mutex, so a method is one step.
pub mod Durability
use openfs.Common.{
  ℕ, ◌+◌, ◌%◌, List, [], ◌∷◌, Option, none, some, Bool, true, false, if◌then◌else◌, ◌==◌, u64_mod,
}
use openfs.Common.Map
use openfs.Common.Map.{Map}
use openfs.Types.{
  BlkLevel, Status, Result, ok, err, not_found, no_space, io_error, invalid_argument,
}
use openfs.Segment.{Stream, SegmentWriter, new_writer, write_block, seal, is_full}
use openfs.Segment.Reader.{read_at}

pub record SegmentEngine : Type 0 where
  pub segment_size : ℕ
  pub active_writer : Option SegmentWriter
  pub files : Map (List ℕ)
  pub next_segment_id : ℕ
  pub block_index : Map (ℕ × ℕ)

-- `SegmentEngine(data_dir, segment_size)` on a directory that holds these segment files.
abbrev pub new_engine : ℕ → Map (List ℕ) → SegmentEngine
new_engine segment_size files = record {
  segment_size = segment_size;
  active_writer = none;
  files = files;
  next_segment_id = 1;
  block_index = [];
}

-- The segment files on disk: those of earlier segments and that of the active one.
unfoldable pub disk_files : SegmentEngine → Map (List ℕ)
disk_files e = elim e.active_writer [
  | none ↦ e.files
  | some w ↦ Map.put w.segment_id w.file.bytes e.files
]

-- `data_dir_ + "/segment_" + id + ".dat"` is opened for reading; no such file is `kNotFound`.
unfoldable pub read_block : SegmentEngine → ℕ → ℕ → Result (List ℕ × ℕ)
read_block e segment_id offset = elim (Map.find segment_id (disk_files e)) [
  | none ↦ err not_found
  | some bytes ↦ read_at bytes offset
]

abbrev pub is_no_space : Result ℕ → Bool
is_no_space (ok offset) = false
is_no_space (err no_space) = true
is_no_space (err s) = false

-- The end of `WriteBlock`: the status is passed on, and a block that was written is indexed.
unfoldable pub finish :
    SegmentEngine → ℕ → SegmentWriter → Result ℕ → SegmentEngine × Result (ℕ × ℕ)
finish e block_id w (err s) = (record e { active_writer = some w }, err s)
finish e block_id w (ok offset) = (
  record e {
    active_writer = some w;
    block_index = Map.put block_id (w.segment_id, offset) e.block_index;
  },
  ok (w.segment_id, offset),
)

module _ (opened : ℕ → Stream) where
  -- The engine and its new active writer.
  unfoldable pub create_new_segment : SegmentEngine → SegmentEngine × SegmentWriter
  create_new_segment e =
      let id = e.next_segment_id in
      let w = new_writer id e.segment_size (opened id) in
      (
        record e {
          active_writer = some w;
          files = disk_files e;
          next_segment_id = (id + 1) % u64_mod;
        },
        w,
      )

  -- `SealSegment` on the active writer, and then `CreateNewSegment`.
  unfoldable pub roll_over : SegmentEngine → SegmentWriter → SegmentEngine × SegmentWriter
  roll_over e w = create_new_segment (record e { active_writer = some (seal w).0 })

  -- The active writer, made if there is none.
  unfoldable pub current : SegmentEngine → SegmentEngine × SegmentWriter
  current e = elim e.active_writer [ none ↦ create_new_segment e | some w ↦ (e, w) ]

  -- The two tests before the write.
  unfoldable pub ready : SegmentEngine → SegmentEngine × SegmentWriter
  ready e =
      let (e', w) = current e in let next = roll_over e' w in if is_full w then next else (e', w)

  unfoldable pub write_engine_block :
      SegmentEngine → ℕ → BlkLevel → List ℕ → ℕ → SegmentEngine × Result (ℕ × ℕ)
  write_engine_block e block_id level payload crc32 =
      let (e', w) = ready e in
      let (w', r) = write_block w block_id level payload crc32 in
      let (next, fresh) = roll_over e' w' in
      let (fresh', again) = write_block fresh block_id level payload crc32 in
      if is_no_space r then finish next block_id fresh' again else finish e' block_id w' r
