-- ===== src/Segment/Growth.antt =====
-- Every operation of a writer only appends to its file, whether it succeeds or fails.
use openfs.Common.{
  ℕ, ◌+◌, ◌-◌, ◌%◌, ◌≡◌, List, [], ◌++◌, Bool, true, false, length, replicate, ltb, if◌then◌else◌,
  arith, refl, sym, ◌∙◌, ap, append_assoc, append-nil, Bool-cases, inl, inr, u64_mod, le_bytes,
}
use openfs.Types.{BlkLevel, Result-cases}
use openfs.Segment.{
  Stream, SegmentWriter, flush, write, padded, pad_to, write_payload, write_block, seal, footer_pos,
  align, block_header, block_header_size, segment_footer_size, segment_magic,
}

-- The second file begins with the bytes of the first.
abbrev pub Grows : List ℕ → List ℕ → Type 0
Grows old new = (more : List ℕ) × (new ≡ old ++ more)

pub Grows-refl : (bytes : List ℕ) → Grows bytes bytes
Grows-refl bytes = ([], sym (append-nil bytes))

pub Grows-trans : (a b c : List ℕ) → Grows a b → Grows b c → Grows a c
Grows-trans a b c (m, e) (n, f) = (m ++ n, f ∙ ap (λ (t : List ℕ). t ++ n) e ∙ append_assoc a m n)

pub flush-Grows : (f : Stream) → Grows f.bytes (flush f).bytes
unfolding flush
flush-Grows f = elim (Bool-cases (flush f).is_good) [
  | inl good ↦ (f.pending, ground arith)
  | inr bad ↦ ([], ground (arith, append-nil f.bytes))
]

pub write-Grows : (f : Stream) (bytes : List ℕ) → Grows f.bytes (write f bytes).bytes
unfolding write
write-Grows f bytes =
    let waiting : Stream = record f { pending = f.pending ++ bytes } in
    let (more, e) = flush-Grows waiting in
    elim (Bool-cases f.is_good) [
      | inr bad ↦ ([], ground (arith, append-nil f.bytes))
      | inl good ↦ elim (Bool-cases (f.holds (length f.pending) (length bytes))) [
        | inl held ↦ ([], ground (arith, append-nil f.bytes))
        | inr sent ↦ elim (Bool-cases (flush waiting).is_good) [
          | inl passed ↦ (more, ground (arith, e))
          | inr failed ↦ ([], ground (arith, append-nil f.bytes))
        ]
      ]
    ]

pad_to-Grows :
    (w : SegmentWriter) (aligned : ℕ)
    → Grows w.file.bytes (pad_to w aligned).0.file.bytes
      × ((pad_to w aligned).0.segment_id ≡ w.segment_id)
unfolding pad_to
pad_to-Grows w aligned =
    let f : Stream = write w.file (replicate (aligned - w.current_offset) 0) in
    let (more, e) = write-Grows w.file (replicate (aligned - w.current_offset) 0) in
    elim (Bool-cases (ltb w.current_offset aligned)) [
      | inr none_left ↦ (([], ground (arith, append-nil w.file.bytes)), ground arith)
      | inl some_left ↦ ((more, ground (arith, e)), ground arith)
    ]

write_payload-Grows :
    (w : SegmentWriter) (block_id : ℕ) (level : BlkLevel) (payload : List ℕ) (crc32 : ℕ)
    → Grows w.file.bytes (write_payload w block_id level payload crc32).0.file.bytes
      × ((write_payload w block_id level payload crc32).0.segment_id ≡ w.segment_id)
unfolding write_payload
write_payload-Grows w block_id level payload crc32 =
    let header = block_header block_id level (length payload) crc32 in
    let f : Stream = write w.file header in
    let g : Stream = write f payload in
    let first = write-Grows w.file header in
    let second = Grows-trans w.file.bytes f.bytes g.bytes first (write-Grows f payload) in
    let (more, e) = Grows-trans w.file.bytes g.bytes (flush g).bytes second (flush-Grows g) in
    elim (Bool-cases f.is_good) [
      | inr bad ↦ ((first.0, ground (arith, first.1)), ground arith)
      | inl good ↦ elim (Bool-cases g.is_good) [
        | inr bad ↦ ((second.0, ground (arith, second.1)), ground arith)
        | inl good' ↦ ((more, ground (arith, e)), ground arith)
      ]
    ]

-- Also a rejected or failed write leaves the bytes that were there, and the segment's id.
pub write_block-Grows :
    (w : SegmentWriter) (block_id : ℕ) (level : BlkLevel) (payload : List ℕ) (crc32 : ℕ)
    → Grows w.file.bytes (write_block w block_id level payload crc32).0.file.bytes
      × ((write_block w block_id level payload crc32).0.segment_id ≡ w.segment_id)
unfolding write_block
write_block-Grows w block_id level payload crc32 =
    let aligned = align w.current_offset in
    let (stay, _) = Grows-refl w.file.bytes in
    let p = (pad_to w aligned).0 in
    let (padding, same) = pad_to-Grows w aligned in
    let (writing, same') = write_payload-Grows p block_id level payload crc32 in
    let (more, e) =
      Grows-trans w.file.bytes p.file.bytes
        (write_payload p block_id level payload crc32).0.file.bytes padding writing in
    elim (Bool-cases w.sealed) [
      | inl closed ↦ (([], ground (arith, append-nil w.file.bytes)), ground arith)
      | inr opened ↦
          elim (Bool-cases
            (ltb (footer_pos w) ((aligned + block_header_size + length payload) % u64_mod))) [
              | inl too_large ↦ (([], ground (arith, append-nil w.file.bytes)), ground arith)
              | inr room ↦ elim (Result-cases (pad_to w aligned).1) [
                | inl (s, failed) ↦ ((padding.0, ground (arith, padding.1)), ground (arith, same))
                | inr (t, made) ↦
                    ((more, ground (arith, made, e)), ground (arith, made, same, same'))
              ]
            ]
    ]

seek-Grows : (b : Bool) (f : Stream) → Grows f.bytes (if b then flush f else f).bytes
seek-Grows true f = flush-Grows f
seek-Grows false f = Grows-refl f.bytes

pub seal-Grows :
    (w : SegmentWriter)
    → Grows w.file.bytes (seal w).0.file.bytes × ((seal w).0.segment_id ≡ w.segment_id)
unfolding seal
seal-Grows w =
    let gap = if ltb w.current_offset (footer_pos w) then footer_pos w - w.current_offset else 0 in
    let sought = if ltb w.current_offset (footer_pos w) then flush w.file else w.file in
    let opened_gap : Stream = record sought { bytes = sought.bytes ++ replicate gap 0 } in
    let footer =
      padded segment_footer_size
        (segment_magic ++ le_bytes 8 w.segment_id ++ le_bytes 8 w.current_offset) in
    let f : Stream = write opened_gap footer in
    let seeking = seek-Grows (ltb w.current_offset (footer_pos w)) w.file in
    let writing =
      Grows-trans sought.bytes opened_gap.bytes f.bytes (replicate gap 0, refl)
        (write-Grows opened_gap footer) in
    let (more, e) =
      Grows-trans w.file.bytes f.bytes (flush f).bytes
        (Grows-trans w.file.bytes sought.bytes f.bytes seeking writing) (flush-Grows f) in
    elim (Bool-cases w.sealed) [
      | inl closed ↦ (([], ground (arith, append-nil w.file.bytes)), ground arith)
      | inr opened ↦ elim (Bool-cases (flush f).is_good) [
        | inl good ↦ ((more, ground (arith, e)), ground arith)
        | inr bad ↦ ((seeking.0, ground (arith, seeking.1)), ground arith)
      ]
    ]
