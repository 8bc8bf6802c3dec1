-- ===== src/Segment/Appending.antt =====
-- A segment's writer keeps its offset and its file in step, and blocks do not overlap.
use openfs.Common.{
  ℕ, ◌+◌, ◌-◌, ◌%◌, ◌^◌, ◌≤◌, ◌<◌, ◌≡◌, List, [], ◌++◌, Bool, true, length, replicate,
  length-append, length-replicate, append_assoc, ltb, arith, refl, ap, ◌∙◌, sym, append-nil, ltb→le,
  Bool-cases, inl, inr, u64_mod, le_bytes,
}
use openfs.Types.{BlkLevel, Result, Result-cases, ok}
use openfs.Segment.{
  Stream, SegmentWriter, flush, write, write_header, new_writer, pad_to, write_payload, write_block,
  footer_pos, align, block_header, block_header_size,
}
use openfs.Segment.Alignment.{align_lem}

pub length-block_header :
    (block_id : ℕ) (level : BlkLevel) (size crc32 : ℕ)
    → length (block_header block_id level size crc32) ≡ 64
unfolding block_header le_bytes
length-block_header block_id level size crc32 = refl

-- What was written to a stream, whether it reached the file or waits in the buffer.
abbrev pub written : Stream → List ℕ
written f = f.bytes ++ f.pending

-- How long the file can become.
abbrev pub reach : Stream → ℕ
reach f = length f.bytes + f.room

-- What was written ends at the offset, which leaves room for the footer; the sizes are those of one
-- segment, so that no sum wraps.
pub record IsValid (w : SegmentWriter) : Type 0 where
  pub in_step : length (written w.file) ≡ w.current_offset
  pub below_footer : w.current_offset + 4096 ≤ w.max_size
  pub no_wrap : w.max_size + 2 ^ 33 ≤ u64_mod

module _ (w : SegmentWriter) (v : IsValid w) where
  footer_pos_lem : footer_pos w ≡ w.max_size - 4096
  unfolding footer_pos
  footer_pos_lem = omega (arith, v.below_footer, v.no_wrap)

-- A flush changes neither what was written nor the reach, whether it fails or not.
flush_lem : (f : Stream) → (written (flush f) ≡ written f) × (reach (flush f) ≡ reach f)
unfolding flush
flush_lem f = elim (Bool-cases (flush f).is_good) [
  | inl good ↦ (
    ground (arith, append-nil (f.bytes ++ f.pending)),
    ground (arith, length-append f.bytes f.pending),
  )
  | inr bad ↦ (ground arith, ground arith)
]

-- With room for what waits, all of it reaches the file.
pub flush-written :
    (f : Stream) → f.is_good ≡ true → length (written f) ≤ reach f → (flush f).bytes ≡ written f
unfolding flush
flush-written f good room = ground (arith, good, room, length-append f.bytes f.pending)

write_lem :
    (f : Stream) (bytes : List ℕ)
    → (write f bytes).is_good ≡ true
    → (written (write f bytes) ≡ written f ++ bytes) × (reach (write f bytes) ≡ reach f)
unfolding write
write_lem f bytes good =
    let waiting : Stream = record f { pending = f.pending ++ bytes } in
    let (same, far) = flush_lem waiting in
    let shape = append_assoc f.bytes f.pending bytes in
    elim (Bool-cases f.is_good) [
      | inr bad ↦ ground arith
      | inl good' ↦ elim (Bool-cases (f.holds (length f.pending) (length bytes))) [
        | inl held ↦ (ground (arith, shape), ground arith)
        | inr sent ↦ elim (Bool-cases (flush waiting).is_good) [
          | inl passed ↦ (ground (arith, same, shape), ground (arith, far))
          | inr failed ↦ ground arith
        ]
      ]
    ]

-- What an accepted block adds to its writer.
pub record Appended (w : SegmentWriter) (block_id : ℕ) (level : BlkLevel) (payload : List ℕ)
    (crc32 offset : ℕ) (w' : SegmentWriter) : Type 0 where
  pub at_end : offset ≡ align w.current_offset
  pub file_bytes :
      written w'.file
      ≡ (written w.file ++ replicate (offset - w.current_offset) 0)
        ++ (block_header block_id level (length payload) crc32 ++ payload)
  pub new_offset : w'.current_offset ≡ offset + 64 + length payload
  pub fits : w'.current_offset + 4096 ≤ w.max_size
  pub same_size : w'.max_size ≡ w.max_size
  pub same_id : w'.segment_id ≡ w.segment_id
  pub flushed :
      (g : Stream) × (w'.file ≡ flush g)
      × (g.is_good ≡ true)
      × (written g ≡ written w'.file)
      × (reach g ≡ reach w.file)

module _ (w : SegmentWriter) (block_id : ℕ) (level : BlkLevel) (payload : List ℕ)
    (crc32 offset : ℕ) where
  write_payload_lem :
      (write_payload w block_id level payload crc32).1 ≡ ok offset
      → (offset ≡ w.current_offset)
        × (written (write_payload w block_id level payload crc32).0.file
            ≡ written w.file ++ (block_header block_id level (length payload) crc32 ++ payload))
        × ((write_payload w block_id level payload crc32).0.current_offset
            ≡ (w.current_offset + (64 + length payload)) % u64_mod)
        × ((write_payload w block_id level payload crc32).0.max_size ≡ w.max_size)
        × ((write_payload w block_id level payload crc32).0.segment_id ≡ w.segment_id)
        × ((g : Stream) × ((write_payload w block_id level payload crc32).0.file ≡ flush g)
            × (g.is_good ≡ true)
            × (written g ≡ written (write_payload w block_id level payload crc32).0.file)
            × (reach g ≡ reach w.file))
  unfolding write_payload
  write_payload_lem done =
      let header = block_header block_id level (length payload) crc32 in
      let f = write w.file header in
      let g = write f payload in
      elim (Bool-cases f.is_good) [
        | inr bad ↦ ground arith
        | inl good ↦ elim (Bool-cases g.is_good) [
          | inr bad ↦ ground arith
          | inl good' ↦
              let (first, near) = write_lem w.file header good in
              let (second, far) = write_lem f payload good' in
              let (kept, _) = flush_lem g in
              let all : written (flush g) ≡ written w.file ++ (header ++ payload) =
                kept
                ∙ second
                ∙ ap (λ (t : List ℕ). t ++ payload) first
                ∙ append_assoc (written w.file) header payload in
              let file : (write_payload w block_id level payload crc32).0.file ≡ flush g =
                ground (arith, good, good') in
              (
                ground arith,
                ap (λ (t : Stream). written t) file ∙ all,
                ground arith,
                ground arith,
                ground arith,
                (g, file, good', sym (ap (λ (t : Stream). written t) file ∙ kept), far ∙ near),
              )
        ]
      ]

  pad_to_lem :
      (aligned : ℕ)
      → w.current_offset ≤ aligned
      → (pad_to w aligned).1 ≡ ok tt
      → (written (pad_to w aligned).0.file
          ≡ written w.file ++ replicate (aligned - w.current_offset) 0)
        × (reach (pad_to w aligned).0.file ≡ reach w.file)
        × ((pad_to w aligned).0.current_offset ≡ aligned)
        × ((pad_to w aligned).0.max_size ≡ w.max_size)
        × ((pad_to w aligned).0.segment_id ≡ w.segment_id)
  unfolding pad_to
  pad_to_lem aligned le done =
      let zeros : List ℕ = replicate (aligned - w.current_offset) 0 in
      let f : Stream = write w.file zeros in
      elim (Bool-cases (ltb w.current_offset aligned)) [
        | inr none_left ↦
            let nothing : aligned - w.current_offset ≡ 0 = omega (arith, ltb→le _ _ none_left) in
            let unchanged : written w.file ++ zeros ≡ written w.file = rw nothing (append-nil _) in
            (ground (arith, unchanged), ground arith, ground arith, ground arith, ground arith)
        | inl some_left ↦ elim (Bool-cases f.is_good) [
          | inr bad ↦ ground arith
          | inl good ↦
              let (all, far) = write_lem w.file zeros good in
              (ground (arith, all), ground (arith, far), ground arith, ground arith, ground arith)
        ]
      ]

module _ (w : SegmentWriter) (block_id : ℕ) (level : BlkLevel) (payload : List ℕ)
    (crc32 offset : ℕ) where
  -- What an accepted block does to the writer: it stands at the aligned end of the file, it leaves
  -- room for the footer, and the bytes before it are as they were.
  pub write_block_lem :
      IsValid w
      → length payload < 2 ^ 32
      → (write_block w block_id level payload crc32).1 ≡ ok offset
      → Appended w block_id level payload crc32 offset
          (write_block w block_id level payload crc32).0
  unfolding write_block
  write_block_lem v small done =
      let aligned = align w.current_offset in
      let (multiple, above, near) =
        align_lem w.current_offset (omega (arith, v.below_footer, v.no_wrap)) in
      elim (Bool-cases w.sealed) [
        | inl closed ↦ ground arith
        | inr opened ↦
            elim (Bool-cases
              (ltb (footer_pos w) ((aligned + block_header_size + length payload) % u64_mod))) [
                | inl too_large ↦ ground arith
                | inr room ↦ elim (Result-cases (pad_to w aligned).1) [
                  | inl (s, failed) ↦ ground arith
                  | inr (t, made) ↦
                      let p = (pad_to w aligned).0 in
                      let result : write_block w block_id level payload crc32
                          ≡ write_payload p block_id level payload crc32 =
                        ground (arith, made) in
                      let (padding, near_reach, moved, same, same_id) =
                        pad_to_lem w block_id level payload crc32 offset aligned above made in
                      let (at_end, bytes, next, size, id, (g, file, good, all, far)) =
                        write_payload_lem p block_id level payload crc32 offset
                          (ap (λ (x : SegmentWriter × Result ℕ). x.1) (sym result) ∙ done) in
                      let at : offset ≡ aligned = at_end ∙ moved in
                      let end : (write_payload p block_id level payload crc32).0.current_offset
                          ≡ offset + 64 + length payload =
                        omega (arith, next, moved, at, near, v.below_footer, v.no_wrap) in
                      let fits : aligned + 64 + length payload + 4096 ≤ w.max_size = omega (
                        arith,
                        ltb→le _ _ room,
                        footer_pos_lem w v,
                        near,
                        v.below_footer,
                        v.no_wrap,
                      ) in
                      rw (result) (record {
                        at_end = at;
                        file_bytes = bytes ∙ rw (padding, at) refl;
                        new_offset = end;
                        fits = omega (arith, end, at, fits);
                        same_size = size ∙ same;
                        same_id = id ∙ same_id;
                        flushed = (g, file, good, all, far ∙ near_reach);
                      })
                ]
              ]
      ]

-- A writer for a new segment of at least 8192 bytes, whose sizes do not wrap and whose header the
-- device takes, is valid.
pub new_writer-IsValid :
    (segment_id max_size room : ℕ) (holds : ℕ → ℕ → Bool)
    → 8192 ≤ max_size
    → max_size + 2 ^ 33 ≤ u64_mod
    → 4096 ≤ room
    → IsValid (
        new_writer segment_id max_size
          (record { bytes = []; pending = []; is_good = true; room = room; holds = holds }))
unfolding new_writer write_header write flush le_bytes
new_writer-IsValid segment_id max_size room holds large small enough =
    elim (Bool-cases (holds 0 4096)) [
      | inl held ↦ record {
        in_step = ground (arith, enough, held);
        below_footer = ground (arith, enough, large, held);
        no_wrap = ground (arith, small);
      }
      | inr sent ↦ record {
        in_step = ground (arith, enough, sent);
        below_footer = ground (arith, enough, large, sent);
        no_wrap = ground (arith, small);
      }
    ]

module _ (w : SegmentWriter) (block_id : ℕ) (level : BlkLevel) (payload : List ℕ)
    (crc32 offset : ℕ) where
  -- A block of less than 2^32 bytes that a valid segment writer accepts starts at a multiple of
  -- 4096 that is not before the end of the blocks written so far, ends where the writer goes on,
  -- and leaves the room of the footer; the writer stays valid.
  pub write_block-IsValid :
      IsValid w
      → length payload < 2 ^ 32
      → (write_block w block_id level payload crc32).1 ≡ ok offset
      → (offset % 4096 ≡ 0)
        × (w.current_offset ≤ offset)
        × ((write_block w block_id level payload crc32).0.current_offset
            ≡ offset + 64 + length payload)
        × (offset + 64 + length payload + 4096 ≤ w.max_size)
        × IsValid (write_block w block_id level payload crc32).0
  write_block-IsValid v small done =
      let a = write_block_lem w block_id level payload crc32 offset v small done in
      let (multiple, above, near) =
        align_lem w.current_offset (omega (arith, v.below_footer, v.no_wrap)) in
      let zeros : List ℕ = replicate (offset - w.current_offset) 0 in
      let total =
        ap length a.file_bytes
        ∙ length-append (written w.file ++ zeros)
            (block_header block_id level (length payload) crc32 ++ payload) in
      let front = length-append (written w.file) zeros in
      let back = length-append (block_header block_id level (length payload) crc32) payload in
      (
        omega (arith, a.at_end, multiple),
        omega (arith, a.at_end, above),
        a.new_offset,
        omega (arith, a.fits, a.new_offset),
        record {
          in_step = omega (
            arith,
            total,
            front,
            back,
            length-replicate {A = ℕ} (offset - w.current_offset) 0,
            length-block_header block_id level (length payload) crc32,
            v.in_step,
            a.new_offset,
            a.at_end,
            above,
          );
          below_footer = omega (arith, a.fits, a.same_size);
          no_wrap = omega (arith, a.same_size, v.no_wrap);
        },
      )
