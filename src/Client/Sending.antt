-- ===== src/Client/Sending.antt =====
-- WriteFile's loop puts every slice of the file on a node.
use openfs.Common.{
  ℕ, ◌+◌, ◌^◌, ◌<◌, ◌≤◌, ◌≡◌, List, [], ◌∷◌, some, length, take, drop, u64_mod, arith, refl, ap,
  sym, subst, map, length-take_le, All, inl, inr, Option,
}
use openfs.Common.Map.{Map}
use openfs.Types.{Name, BlkLevel, BlockMeta, Result, Result-cases, ok}
use openfs.Crc.{compute_crc32}
use openfs.Splitter.{BlockSlice}
use openfs.Splitter.Slices.{Covers, last, next, block_size_pos}
use openfs.Meta.BlockMap.{block_id_of}
use openfs.Client.{
  DataNodes, Fate, delivered, lost, unanswered, call, default_addr, resolve_addr, committed,
  write_blocks, Written,
}
use openfs.Client.Assembly.{ServesBlocks, Defaults, resolve_addr-Defaults, Filled}

-- A call that answered was carried out.
pub call_ok :
    {S A : Type 0} (f : Fate) (s : S) (p : S × Result A) (a : A)
    → (call f s p).1 ≡ ok a
    → (call f s p ≡ p) × (p.1 ≡ ok a)
unfolding call
call_ok delivered s (s', r) a e = (refl, e)
call_ok lost s (s', r) a e = cc
call_ok unanswered s (s', r) a e = cc

-- A round of the loop in a run that went well.
write_blocks_step :
    (n : DataNodes) (net : ℕ → Fate) (cache : Map Name) (st : n.State) (bytes : List ℕ) (i : ℕ)
    (a : BlockMeta) (allocated : List BlockMeta) (s : BlockSlice) (slices : List BlockSlice)
    (blocks : List BlockMeta)
    → (write_blocks n net cache st bytes i (a ∷ allocated) (s ∷ slices)).result ≡ ok blocks
    → let piece = take s.data_size (drop s.file_offset bytes) in
      let write = n.write_block st (resolve_addr cache a.node_id).1 a.block_id piece s.crc32 in
      let rest =
        write_blocks n net
          (resolve_addr cache a.node_id).0
          write.0
          bytes
          (i + 1)
          allocated
          slices in
      (seg : ℕ) × (off : ℕ) × (others : List BlockMeta) × (write.1 ≡ ok (seg, off))
      × (rest.result ≡ ok others)
      × (blocks ≡ committed a s seg off ∷ others)
      × (write_blocks n net cache st bytes i (a ∷ allocated) (s ∷ slices)
          ≡ record rest { result = ok blocks })
unfolding write_blocks
write_blocks_step n net cache st bytes i a allocated s slices blocks done =
    let piece = take s.data_size (drop s.file_offset bytes) in
    let write = n.write_block st (resolve_addr cache a.node_id).1 a.block_id piece s.crc32 in
    let rest =
      write_blocks n net (resolve_addr cache a.node_id).0 write.0 bytes (i + 1) allocated slices in
    elim (Result-cases (call (net i) st write).1) [
      | inl (e, failed) ↦ ground (arith, failed)
      | inr ((seg, off), answered) ↦
          let (carried, wrote) = call_ok (net i) st write (seg, off) answered in
          elim (Result-cases rest.result) [
            | inl (e, failed) ↦ ground (arith, failed, carried, wrote)
            | inr (others, went) ↦ (
              seg,
              off,
              others,
              wrote,
              went,
              ground (arith, carried, wrote, went),
              ground (arith, carried, wrote, went),
            )
          ]
    ]

module _ (n : DataNodes) (law : ServesBlocks n) where
  -- What was held is held.
  abbrev pub StillHolds : n.State → n.State → Type 0
  StillHolds st st' =
      (a : Name) (seg off : ℕ) (p : List ℕ) (c : ℕ)
      → law.Holds st a seg off p c
      → law.Holds st' a seg off p c

  Filled-StillHolds :
      (st st' : n.State) (bytes : List ℕ) (from to : ℕ) (blocks : List BlockMeta)
      → StillHolds st st'
      → Filled n law st bytes from to blocks
      → Filled n law st' bytes from to blocks
  Filled-StillHolds st st' bytes from to [] keeps f = f
  Filled-StillHolds st st' bytes from to (b ∷ blocks) keeps (held, crc, bounded, fits, rest) = (
    keeps _ _ _ _ _ held,
    crc,
    bounded,
    fits,
    Filled-StillHolds st st' bytes (from + b.size) to blocks keeps rest,
  )

  -- The slices from `from` to `to` were sent for the allocated blocks.
  pub record Sent (st : n.State) (w : Written n) (bytes : List ℕ) (from to : ℕ)
      (allocated blocks : List BlockMeta) : Type 0 where
    pub defaults : Defaults w.cache
    pub valid : law.Valid w.nodes
    pub keeps : StillHolds st w.nodes
    pub filled : Filled n law w.nodes bytes from to blocks
    pub same_ids : map block_id_of blocks ≡ map block_id_of allocated

  module _ (net : ℕ → Fate) (cache : Map Name) (st : n.State) (bytes : List ℕ) (i : ℕ)
      (a : BlockMeta) (allocated : List BlockMeta) (s : BlockSlice) (slices : List BlockSlice)
      (blocks : List BlockMeta) (to : ℕ) where
    abbrev w : Written n
    w = write_blocks n net cache st bytes i (a ∷ allocated) (s ∷ slices)

    abbrev piece : List ℕ
    piece = take s.data_size (drop s.file_offset bytes)

    abbrev sent : n.State
    sent = (n.write_block st (resolve_addr cache a.node_id).1 a.block_id piece s.crc32).0

    abbrev rest : Written n
    rest = write_blocks n net (resolve_addr cache a.node_id).0 sent bytes (i + 1) allocated slices

    -- One slice and what was sent after it.
    Sent-step :
        Defaults cache
        → law.Valid st
        → a.block_id < u64_mod
        → s.data_size ≤ 2 ^ 28
        → s.crc32 ≡ compute_crc32 piece
        → s.file_offset + s.data_size ≤ to
        → w.result ≡ ok blocks
        → (Defaults (resolve_addr cache a.node_id).0
            → law.Valid sent
            → (others : List BlockMeta) → rest.result ≡ ok others
            → Sent sent rest bytes (s.file_offset + s.data_size) to allocated others)
        → Sent st w bytes s.file_offset to (a ∷ allocated) blocks
    Sent-step d v id_fits bounded crc fits done later =
        let (seg, off, others, wrote, went, shape, all) =
          write_blocks_step n net cache st bytes i a allocated s slices blocks done in
        let (d', addr) = resolve_addr-Defaults cache a.node_id d in
        let (v', keeps, held) =
          law.writes st (resolve_addr cache a.node_id).1 a.block_id piece s.crc32 v id_fits
            (omega (arith, bounded, length-take_le s.data_size (drop s.file_offset bytes))) in
        let r = later d' v' others went in
        let kept : StillHolds st rest.nodes =
          λ x seg' off' p c h. r.keeps x seg' off' p c (keeps x seg' off' p c h) in
        let here : law.Holds rest.nodes default_addr seg off piece s.crc32 =
          r.keeps default_addr seg off piece s.crc32 (
            subst (λ (x : Name). law.Holds sent x seg off piece s.crc32) addr
              (held seg off wrote)) in
        subst (λ (x : Written n). Sent st x bytes s.file_offset to (a ∷ allocated) blocks) (sym all)
          (subst
            (λ (bs : List BlockMeta).
              Sent st (record rest { result = ok blocks }) bytes s.file_offset to (a ∷ allocated)
                bs)
            (sym shape)
            (record {
              defaults = r.defaults;
              valid = r.valid;
              keeps = kept;
              filled = (here, crc, omega (arith, bounded), fits, r.filled);
              same_ids = ap (λ (t : List ℕ). a.block_id ∷ t) r.same_ids;
            }))

  Covers-le :
      (level : BlkLevel) (bytes : Option (List ℕ)) (slices : List BlockSlice) {from to : ℕ}
      → Covers level bytes from to slices
      → from ≤ to
  Covers-le level bytes [] c = elim c [ ]
  Covers-le level bytes (s ∷ []) (last _ _ _ _ _) = omega arith
  Covers-le level bytes (s ∷ slices) (next _ _ _ _ c) =
      omega (arith, Covers-le level bytes slices c)

  -- Nothing is left to send.
  none_sent :
      (net : ℕ → Fate) (cache : Map Name) (st : n.State) (bytes : List ℕ) (i to : ℕ)
      → Defaults cache
      → law.Valid st
      → (others : List BlockMeta) → (write_blocks n net cache st bytes i [] []).result ≡ ok others
      → Sent st (write_blocks n net cache st bytes i [] []) bytes to to [] others
  unfolding write_blocks
  none_sent net cache st bytes i to d v others went =
      let nothing : [] ≡ others = cc in
      subst
        (λ (x : List BlockMeta).
          Sent st (write_blocks n net cache st bytes i [] []) bytes to to [] x)
        nothing
        (record {
          defaults = d;
          valid = v;
          keeps = λ a seg off p c h. h;
          filled = refl;
          same_ids = refl;
        })

  pub write_blocks-Sent :
      (net : ℕ → Fate) (cache : Map Name) (st : n.State) (bytes : List ℕ) (level : BlkLevel) (i : ℕ)
      (allocated : List BlockMeta) (slices : List BlockSlice) (blocks : List BlockMeta)
      {from to : ℕ}
      → Covers level (some bytes) from to slices
      → length allocated ≡ length slices
      → All (λ (a : BlockMeta). a.block_id < u64_mod) allocated
      → Defaults cache
      → law.Valid st
      → (write_blocks n net cache st bytes i allocated slices).result ≡ ok blocks
      → Sent st
          (write_blocks n net cache st bytes i allocated slices)
          bytes
          from
          to
          allocated
          blocks
  write_blocks-Sent net cache st bytes level i [] [] blocks c same ids d v done = elim c [ ]
  write_blocks-Sent net cache st bytes level i (a ∷ allocated) [] blocks c same ids d v done =
      elim c [ ]
  write_blocks-Sent net cache st bytes level i [] (s ∷ slices) blocks c same ids d v done =
      absurd (omega (arith, same))
  write_blocks-Sent net cache st bytes level i (a ∷ b ∷ allocated) (s ∷ []) blocks
        (last _ same_level pos le crc) same ids d v done =
      absurd (omega (arith, same))
  write_blocks-Sent net cache st bytes level i (a ∷ []) (s ∷ []) blocks
        (last _ same_level pos le crc) same ids d v done =
      Sent-step net cache st bytes i a [] s [] blocks _ d v ids.0
        (omega (arith, le, (block_size_pos level).1)) crc (omega arith) done
        (λ d' v' others went.
          none_sent net (resolve_addr cache a.node_id).0 _ bytes (i + 1) _ d' v' others went)
  write_blocks-Sent net cache st bytes level i (a ∷ allocated) (s ∷ slices) blocks
        (next _ same_level full crc c) same ids d v done =
      Sent-step net cache st bytes i a allocated s slices blocks _ d v ids.0
        (omega (arith, full, (block_size_pos level).1)) crc (Covers-le level (some bytes) slices c)
        done
        (λ d' v' others went.
          write_blocks-Sent net (resolve_addr cache a.node_id).0 _ bytes level (i + 1) allocated
            slices others c (omega (arith, same)) ids.1 d' v' went)
