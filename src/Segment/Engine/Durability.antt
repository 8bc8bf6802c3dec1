-- ===== src/Segment/Engine/Durability.antt =====
-- Blocks that the engine can read stay readable, whatever is written after them.
use openfs.Common.{
  ℕ, ◌+◌, ◌%◌, ◌≡◌, ◌≢◌, ◌<◌, List, none, some, arith, refl, sym, ◌∙◌, subst, ◌≤◌, Option-cases,
  Bool-cases, inl, inr, u64_mod,
}
use native.Mathlib.Decide.{ℕ_discrete}
use openfs.Common.Map
use openfs.Common.Map.{Map, find-put}
use openfs.Types.{BlkLevel, Result, ok, err}
use openfs.Segment.{Stream, SegmentWriter, new_writer, write_header, write_block, seal, is_full}
use openfs.Segment.Reader.{read_at, read_at-append}
use openfs.Segment.Growth.{Grows, Grows-refl, Grows-trans, write_block-Grows, seal-Grows}
use openfs.Segment.Engine.{
  SegmentEngine, disk_files, read_block, finish, is_no_space, create_new_segment, current,
  roll_over, ready, write_engine_block,
}

some_injective : {A : Type 0} {a b : A} → some a ≡ some b → a ≡ b
some_injective e = cc e

new_writer_id : (id size : ℕ) (f : Stream) → (new_writer id size f).segment_id ≡ id
unfolding new_writer write_header
new_writer_id id size f = ground arith

-- Every file is still there, and begins with the bytes that it had.
abbrev pub Keeps : Map (List ℕ) → Map (List ℕ) → Type 0
Keeps m m' =
    (k : ℕ) (bytes : List ℕ)
    → Map.find k m ≡ some bytes
    → (bytes' : List ℕ) × (Map.find k m' ≡ some bytes') × Grows bytes bytes'

Keeps-trans : (a b c : Map (List ℕ)) → Keeps a b → Keeps b c → Keeps a c
Keeps-trans a b c f g k bytes here =
    let (bytes', there, more) = f k bytes here in
    let (bytes'', last, more') = g k bytes' there in
    (bytes'', last, Grows-trans bytes bytes' bytes'' more more')

-- Segment ids in use are below the next one.
abbrev pub Below : Map (List ℕ) → ℕ → Type 0
Below m next = (k : ℕ) (bytes : List ℕ) → Map.find k m ≡ some bytes → k < next

put-Keeps :
    (m : Map (List ℕ)) (k : ℕ) (b b' : List ℕ) → Grows b b' → Keeps (Map.put k b m) (Map.put k b' m)
put-Keeps m k b b' grows j bytes h = elim (ℕ_discrete j k) [
  | yes here ↦
      let same : b ≡ bytes = some_injective (sym (find-put j k b m ∙ ground (arith, here)) ∙ h) in
      (b', ground (arith, find-put j k b' m, here), subst (λ (x : List ℕ). Grows x b') same grows)
  | no other ↦
      (bytes, ground (arith, find-put j k b m, find-put j k b' m, h, other), Grows-refl bytes)
]

put-Below : (m : Map (List ℕ)) (k n : ℕ) (b : List ℕ) → Below m n → k < n → Below (Map.put k b m) n
put-Below m k n b below small j bytes h = elim (ℕ_discrete j k) [
  | yes here ↦ omega (arith, here, small)
  | no other ↦ below j bytes (ground (arith, find-put j k b m, h, other))
]

new-Keeps : (m : Map (List ℕ)) (k : ℕ) (b : List ℕ) → Below m k → Keeps m (Map.put k b m)
new-Keeps m k b below j bytes h =
    let other : j ≢ k = (λ same. omega (arith, below j bytes h, same)) in
    (bytes, ground (arith, find-put j k b m, h, other), Grows-refl bytes)

-- Ids in use stay below the next one.
abbrev pub IsValid : SegmentEngine → Type 0
IsValid e =
    Below e.files e.next_segment_id
    × ((w : SegmentWriter) → e.active_writer ≡ some w → w.segment_id < e.next_segment_id)

-- What at most `n` new segments and any writes do to the engine.
record Step (n : ℕ) (e e' : SegmentEngine) : Type 0 where
  pub keeps : Keeps (disk_files e) (disk_files e')
  pub valid : IsValid e'
  pub next_bound : e'.next_segment_id ≤ e.next_segment_id + n

Step-trans : (n k : ℕ) (a b c : SegmentEngine) → Step n a b → Step k b c → Step (n + k) a c
Step-trans n k a b c s t = record {
  keeps = Keeps-trans (disk_files a) (disk_files b) (disk_files c) s.keeps t.keeps;
  valid = t.valid;
  next_bound = omega (arith, s.next_bound, t.next_bound);
}

disk_files-active :
    (e : SegmentEngine) (w : SegmentWriter)
    → e.active_writer ≡ some w
    → disk_files e ≡ Map.put w.segment_id w.file.bytes e.files
unfolding disk_files
disk_files-active e w active = ground (arith, active)

disk_files-Below : (e : SegmentEngine) → IsValid e → Below (disk_files e) e.next_segment_id
unfolding disk_files
disk_files-Below e v = elim (Option-cases e.active_writer) [
  | inl empty ↦ rw (empty, disk_files) v.0
  | inr (w, active) ↦
      rw (disk_files-active e w active)
        (put-Below e.files w.segment_id e.next_segment_id w.file.bytes v.0 (v.1 w active))
]

-- The active file grows.
grow-Step :
    (e : SegmentEngine) (w w' : SegmentWriter) (index : Map (ℕ × ℕ))
    → IsValid e
    → e.active_writer ≡ some w
    → Grows w.file.bytes w'.file.bytes
    → w'.segment_id ≡ w.segment_id
    → Step 0 e (record e { active_writer = some w'; block_index = index })
grow-Step e w w' index v active grows id =
    let e' : SegmentEngine = record e { active_writer = some w'; block_index = index } in
    let before = disk_files-active e w active in
    let after : disk_files e' ≡ Map.put w.segment_id w'.file.bytes e.files =
      disk_files-active e' w' refl ∙ rw id refl in
    record {
      keeps = rw (before, after) (put-Keeps e.files w.segment_id w.file.bytes w'.file.bytes grows);
      valid = (
        v.0,
        λ x h.
            subst (λ (y : SegmentWriter). y.segment_id < e.next_segment_id) (some_injective h)
              (omega (arith, id, v.1 w active)),
      );
      next_bound = omega arith;
    }

-- A segment with a new id is opened.
create-Step :
    (opened : ℕ → Stream) (e : SegmentEngine)
    → e.next_segment_id + 1 < u64_mod
    → IsValid e
    → Step 1 e (create_new_segment opened e).0
unfolding create_new_segment
create-Step opened e room v =
    let id = e.next_segment_id in
    let w = new_writer id e.segment_size (opened id) in
    let e' = (create_new_segment opened e).0 in
    let no_wrap : (id + 1) % u64_mod ≡ id + 1 = omega arith in
    let below = disk_files-Below e v in
    let after : disk_files e' ≡ Map.put w.segment_id w.file.bytes (disk_files e) =
      disk_files-active e' w refl in
    let own = new_writer_id id e.segment_size (opened id) in
    record {
      keeps = rw (after, own) (new-Keeps (disk_files e) id w.file.bytes below);
      valid = (
        rw (no_wrap) (λ k bytes h. omega (arith, below k bytes h)),
        λ x h.
            subst (λ (y : SegmentWriter). y.segment_id < (id + 1) % u64_mod) (some_injective h)
              (omega (arith, own, no_wrap)),
      );
      next_bound = rw no_wrap (omega arith);
    }

-- The active writer is `w`, and the engine is valid with ids to spare.
abbrev Ready : ℕ → SegmentEngine → SegmentWriter → Type 0
Ready n e w = IsValid e × (e.active_writer ≡ some w) × (e.next_segment_id + n < u64_mod)

finish-Step :
    (e : SegmentEngine) (block_id : ℕ) (w w' : SegmentWriter) (r : Result ℕ)
    → IsValid e
    → e.active_writer ≡ some w
    → Grows w.file.bytes w'.file.bytes
    → w'.segment_id ≡ w.segment_id
    → Step 0 e (finish e block_id w' r).0
unfolding finish
finish-Step e block_id w w' (ok offset) v active grows id =
    grow-Step e w w' (Map.put block_id (w'.segment_id, offset) e.block_index) v active grows id
finish-Step e block_id w w' (err s) v active grows id =
    grow-Step e w w' e.block_index v active grows id

module _ (opened : ℕ → Stream) where
  roll_over-Step :
      (e : SegmentEngine) (w w' : SegmentWriter)
      → Ready 1 e w
      → Grows w.file.bytes w'.file.bytes
      → w'.segment_id ≡ w.segment_id
      → Step 1 e (roll_over opened e w').0
  unfolding roll_over
  roll_over-Step e w w' (v, active, room) grows id =
      let (sealing, same) = seal-Grows w' in
      let s =
        grow-Step e w (seal w').0 e.block_index v active
          (Grows-trans w.file.bytes w'.file.bytes (seal w').0.file.bytes grows sealing)
          (same ∙ id) in
      let sealed_e : SegmentEngine = record e { active_writer = some (seal w').0 } in
      Step-trans 0 1 e sealed_e (roll_over opened e w').0 s
        (create-Step opened sealed_e room s.valid)

  current-none :
      (e : SegmentEngine) → e.active_writer ≡ none → current opened e ≡ create_new_segment opened e
  unfolding current
  current-none e empty = ground (arith, empty)

  current-some :
      (e : SegmentEngine) (w : SegmentWriter) → e.active_writer ≡ some w → current opened e ≡ (e, w)
  unfolding current
  current-some e w active = ground (arith, active)

  current-Step :
      (e : SegmentEngine)
      → IsValid e
      → e.next_segment_id + 1 < u64_mod
      → Step 1 e (current opened e).0
        × ((current opened e).0.active_writer ≡ some (current opened e).1)
  current-Step e v room = elim (Option-cases e.active_writer) [
    | inl empty ↦
        rw (current-none e empty) (create-Step opened e room v, unfold create_new_segment in refl)
    | inr (w, active) ↦ rw (current-some e w active) (
      record {
        keeps = λ k bytes h. (bytes, h, Grows-refl bytes);
        valid = v;
        next_bound = omega arith;
      },
      active,
    )
  ]

  ready-Step :
      (e : SegmentEngine)
      → IsValid e
      → e.next_segment_id + 2 < u64_mod
      → Step 2 e (ready opened e).0 × ((ready opened e).0.active_writer ≡ some (ready opened e).1)
  unfolding ready
  ready-Step e v room =
      let c = current opened e in
      let (s, active) = current-Step e v (omega (arith, room)) in
      elim (Bool-cases (is_full c.1)) [
        | inl full ↦
            rw (full, ready)
              (
                Step-trans 1 1 e c.0 (roll_over opened c.0 c.1).0 s (
                    roll_over-Step c.0 c.1 c.1 (s.valid, active, omega (arith, room, s.next_bound))
                      (Grows-refl c.1.file.bytes) refl),
                unfold roll_over create_new_segment in refl,
              )
        | inr free ↦
            rw (free, ready)
              (
                (record {
                  keeps = s.keeps;
                  valid = s.valid;
                  next_bound = omega (arith, s.next_bound);
                }),
                active,
              )
      ]

  write-Step :
      (e : SegmentEngine) (block_id : ℕ) (level : BlkLevel) (payload : List ℕ) (crc32 : ℕ)
      → IsValid e
      → e.next_segment_id + 3 < u64_mod
      → Step 3 e (write_engine_block opened e block_id level payload crc32).0
  unfolding write_engine_block
  write-Step e block_id level payload crc32 v room =
      let c = ready opened e in
      let (s, active) = ready-Step e v (omega (arith, room)) in
      let a = write_block c.1 block_id level payload crc32 in
      let (grows, same) = write_block-Grows c.1 block_id level payload crc32 in
      let next = roll_over opened c.0 a.0 in
      let b = write_block next.1 block_id level payload crc32 in
      elim (Bool-cases (is_no_space a.1)) [
        | inr kept ↦
            let t =
              Step-trans 2 0 e c.0 (finish c.0 block_id a.0 a.1).0 s
                (finish-Step c.0 block_id c.1 a.0 a.1 s.valid active grows same) in
            rw (kept, write_engine_block)
              (record {
                keeps = t.keeps;
                valid = t.valid;
                next_bound = omega (arith, t.next_bound);
              })
        | inl full ↦
            let t =
              roll_over-Step c.0 c.1 a.0 (s.valid, active, omega (arith, room, s.next_bound)) grows
                same in
            let (grows', same') = write_block-Grows next.1 block_id level payload crc32 in
            rw (full, write_engine_block)
              (Step-trans 2 1 e c.0 (finish next.0 block_id b.0 b.1).0 s (
                Step-trans 1 0 c.0 next.0 (finish next.0 block_id b.0 b.1).0 t (
                  finish-Step next.0 block_id next.1 b.0 b.1 t.valid
                    (unfold roll_over create_new_segment in refl) grows' same')))
      ]

  -- In a valid engine with three segment ids left, a block that can be read is read the same
  -- after any WriteBlock, one that fails or rolls over to new segments included; the engine stays
  -- valid and takes at most three segment ids.
  pub read_block-write_engine_block :
      (e : SegmentEngine) (block_id : ℕ) (level : BlkLevel) (payload : List ℕ) (crc32 : ℕ)
      → IsValid e
      → e.next_segment_id + 3 < u64_mod
      → IsValid (write_engine_block opened e block_id level payload crc32).0
        × ((write_engine_block opened e block_id level payload crc32).0.next_segment_id
            ≤ e.next_segment_id + 3)
        × ((segment_id offset : ℕ) (r : List ℕ × ℕ)
            → read_block e segment_id offset ≡ ok r
            → read_block
                (write_engine_block opened e block_id level payload crc32).0
                segment_id
                offset
              ≡ ok r)
  unfolding read_block
  read_block-write_engine_block e block_id level payload crc32 v room =
      let s = write-Step e block_id level payload crc32 v room in
      (
        s.valid,
        s.next_bound,
        λ segment_id offset r read. elim (Option-cases (Map.find segment_id (disk_files e))) [
          | inl missing ↦ ground (arith, missing)
          | inr (bytes, there) ↦
              let was : read_at bytes offset ≡ ok r = ground (arith, there, read) in
              let (bytes', now, (more, longer)) = s.keeps segment_id bytes there in
              rw (now, read_block, longer) (read_at-append bytes more offset r was)
        ],
      )
