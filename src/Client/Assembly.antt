-- ===== src/Client/Assembly.antt =====
-- ReadFile's loop puts the blocks of a file together.
use openfs.Common.{
  ℕ, ◌+◌, ◌-◌, ◌%◌, ◌^◌, ◌<◌, ◌≤◌, ◌≡◌, List, [], ◌∷◌, ◌++◌, some, true, length, take, drop,
  replicate, write_over, ◌==◌, min, u32_mod, u64_mod, arith, refl, ap, sym, ◌∙◌, subst,
  length-append, length-replicate, length-take, take-add, append_assoc, write_over-append,
  length-drop, take-all, drop-replicate, append-nil, Option-cases, inl, inr,
}
use openfs.Common.Map
use openfs.Common.Map.{Map, find-put}
use openfs.Types.{Name, BlockMeta, ok}
use openfs.Crc.{compute_crc32}
use openfs.Client.{
  DataNodes, Fate, delivered, call, default_addr, resolve_addr, assemble, read_blocks,
}

-- What the rest of the program may count on of the data service: a block that a write answered for
-- stays where the answer said.
pub record ServesBlocks (n : DataNodes) : Type 1 where
  pub Valid : n.State → Type 0
  pub Holds : n.State → Name → ℕ → ℕ → List ℕ → ℕ → Type 0
  pub writes :
      (s : n.State) (addr : Name) (block_id : ℕ) (payload : List ℕ) (crc32 : ℕ)
      → Valid s
      → block_id < u64_mod
      → length payload + 4127 < u32_mod
      → Valid (n.write_block s addr block_id payload crc32).0
        × ((a : Name) (seg off : ℕ) (p : List ℕ) (c : ℕ)
            → Holds s a seg off p c
            → Holds (n.write_block s addr block_id payload crc32).0 a seg off p c)
        × ((seg off : ℕ)
            → (n.write_block s addr block_id payload crc32).1 ≡ ok (seg, off)
            → Holds (n.write_block s addr block_id payload crc32).0 addr seg off payload crc32)
  pub reads :
      (s : n.State) (addr : Name) (seg off : ℕ) (p : List ℕ) (c : ℕ)
      → Valid s
      → Holds s addr seg off p c
      → n.read_block s addr seg off ≡ (s, ok (p, c))

-- Every address in the cache is the one that the client enters.
pub record Defaults (cache : Map Name) : Type 0 where
  pub default : (id : ℕ) (addr : Name) → Map.find id cache ≡ some addr → addr ≡ default_addr

Resolved : Map Name × Name → Type 0
Resolved (cache, addr) = Defaults cache × (addr ≡ default_addr)

Defaults-put :
    (cache : Map Name) (id : ℕ) → Defaults cache → Defaults (Map.put id default_addr cache)
Defaults-put cache id d = record {
  default = λ j addr h. ground (arith, find-put j id default_addr cache, d.default j addr, h);
}

pub resolve_addr-Defaults :
    (cache : Map Name) (node_id : ℕ)
    → Defaults cache
    → Defaults (resolve_addr cache node_id).0 × ((resolve_addr cache node_id).1 ≡ default_addr)
unfolding resolve_addr Resolved
resolve_addr-Defaults cache node_id d = elim (Option-cases (Map.find node_id cache)) [
  | inr (addr, there) ↦
      let e : resolve_addr cache node_id ≡ (cache, addr) = ground (arith, there) in
      subst Resolved (sym e) (d, d.default node_id addr there)
  | inl missing ↦
      let e : resolve_addr cache node_id ≡ (Map.put node_id default_addr cache, default_addr) =
        ground (arith, missing) in
      subst Resolved (sym e) (Defaults-put cache node_id d, refl)
]

-- A file whose first `from` bytes are in place.
abbrev pub partial : List ℕ → ℕ → List ℕ
partial bytes from = take from bytes ++ replicate (length bytes - from) 0

length-partial :
    (bytes : List ℕ) (from : ℕ) → from ≤ length bytes → length (partial bytes from) ≡ length bytes
length-partial bytes from le = omega (
  arith,
  length-append (take from bytes) (replicate (length bytes - from) 0),
  length-take from bytes le,
  length-replicate {A = ℕ} (length bytes - from) 0,
)

-- One more piece in place.
partial-write_over :
    (bytes : List ℕ) (from k : ℕ)
    → from + k ≤ length bytes
    → write_over 0 from (take k (drop from bytes)) (partial bytes from) ≡ partial bytes (from + k)
partial-write_over bytes from k fits =
    let zeros : List ℕ = replicate (length bytes - from) 0 in
    let piece = take k (drop from bytes) in
    let left = length bytes - (from + k) in
    let ahead : length (take from bytes) ≡ from = length-take from bytes (omega (arith, fits)) in
    let behind = length-drop from bytes (omega (arith, fits)) in
    let sized : length piece ≡ k = length-take k (drop from bytes) (omega (arith, behind, fits)) in
    let more : length bytes - from ≡ k + left = omega (arith, fits) in
    let rest : drop (length piece) zeros ≡ replicate left 0 =
      ap (λ (i : ℕ). drop i zeros) sized
      ∙ ap (λ (i : ℕ). drop k (replicate i 0)) more
      ∙ drop-replicate k left 0 in
    ap (λ (i : ℕ). write_over 0 i piece (partial bytes from)) (sym ahead)
    ∙ write_over-append 0 (take from bytes) piece zeros
        (omega (arith, sized, fits, length-replicate {A = ℕ} (length bytes - from) 0))
    ∙ ap (λ (t : List ℕ). take from bytes ++ (piece ++ t)) rest
    ∙ sym (append_assoc (take from bytes) piece (replicate left 0))
    ∙ ap (λ (t : List ℕ). t ++ replicate left 0) (sym (take-add from k bytes))

-- What the loop does with the piece that comes next.
assemble_lem :
    (bytes : List ℕ) (from k : ℕ)
    → from + k ≤ length bytes
    → length bytes < 2 ^ 48
    → k < 2 ^ 32
    → assemble (length bytes) (partial bytes from) from (take k (drop from bytes))
      ≡ (partial bytes (from + k), from + k)
unfolding assemble
assemble_lem bytes from k fits small small' =
    let piece = take k (drop from bytes) in
    let behind = length-drop from bytes (omega (arith, fits)) in
    let sized : length piece ≡ k = length-take k (drop from bytes) (omega (arith, behind, fits)) in
    let copied : min (length piece) ((length bytes + u64_mod - from) % u64_mod) % u32_mod ≡ k =
      omega (arith, sized, fits, small, small') in
    let whole : take k piece ≡ piece = ap (λ (i : ℕ). take i piece) (sym sized) ∙ take-all piece in
    let buffer = length-partial bytes from (omega (arith, fits)) in
    let next : (from + k) % u64_mod ≡ from + k = omega (arith, fits, small) in
    ground (arith, copied, whole, buffer, next, partial-write_over bytes from k fits)

-- One round of the loop.
read_blocks_step :
    (n : DataNodes) (net : ℕ → Fate) (cache : Map Name) (st : n.State) (size : ℕ) (buffer : List ℕ)
    (from i : ℕ) (b : BlockMeta) (blocks : List BlockMeta) (piece buffer' : List ℕ) (crc next : ℕ)
    → net i ≡ delivered
    → n.read_block st (resolve_addr cache b.node_id).1 b.segment_id b.offset ≡ (st, ok (piece, crc))
    → (compute_crc32 piece == crc) ≡ true
    → assemble size buffer from piece ≡ (buffer', next)
    → (read_blocks n net cache st size buffer from i (b ∷ blocks)).result
      ≡ (read_blocks n net
          (resolve_addr cache b.node_id).0
          st
          size
          buffer'
          next
          (i + 1)
          blocks).result
unfolding read_blocks call
read_blocks_step n net cache st size buffer from i b blocks piece buffer' crc next arrives answer
      same put =
    ground (arith, arrives, answer, same, put)

module _ (n : DataNodes) (law : ServesBlocks n) where
  -- The nodes hold the bytes from `from` to `to`, block by block.
  abbrev pub Filled : n.State → List ℕ → ℕ → ℕ → List BlockMeta → Type 0
  Filled st bytes from to [] = from ≡ to
  Filled st bytes from to (b ∷ blocks) =
      let piece = take b.size (drop from bytes) in
      law.Holds st default_addr b.segment_id b.offset piece b.crc32
      × (b.crc32 ≡ compute_crc32 piece)
      × (b.size < 2 ^ 32)
      × (from + b.size ≤ to)
      × Filled st bytes (from + b.size) to blocks

  pub read_blocks-Filled :
      (net : ℕ → Fate) (cache : Map Name) (st : n.State) (bytes : List ℕ) (from i : ℕ)
      (blocks : List BlockMeta)
      → ((k : ℕ) → net k ≡ delivered)
      → Defaults cache
      → law.Valid st
      → length bytes < 2 ^ 48
      → from ≤ length bytes
      → Filled st bytes from (length bytes) blocks
      → (read_blocks n net cache st (length bytes) (partial bytes from) from i blocks).result
        ≡ ok bytes
  unfolding read_blocks call
  read_blocks-Filled net cache st bytes from i [] arrives d v small le done =
      let none_left : length bytes - from ≡ 0 = omega (arith, done) in
      ap (λ (t : List ℕ). ok t)
        (ap (λ (k : ℕ). take from bytes ++ replicate k 0) none_left
          ∙ append-nil (take from bytes)
          ∙ ap (λ (k : ℕ). take k bytes) done
          ∙ take-all bytes)
  read_blocks-Filled net cache st bytes from i (b ∷ blocks) arrives d v small le
        (held, crc, bounded, fits, rest) =
      let piece = take b.size (drop from bytes) in
      let (d', addr) = resolve_addr-Defaults cache b.node_id d in
      let answer : n.read_block st (resolve_addr cache b.node_id).1 b.segment_id b.offset
          ≡ (st, ok (piece, b.crc32)) =
        ap (λ (a : Name). n.read_block st a b.segment_id b.offset) addr
        ∙ law.reads st default_addr b.segment_id b.offset piece b.crc32 v held in
      let same : (compute_crc32 piece == b.crc32) ≡ true = ground (arith, crc) in
      let put = assemble_lem bytes from b.size fits small bounded in
      let ih =
        read_blocks-Filled net (resolve_addr cache b.node_id).0 st bytes (from + b.size) (i + 1)
          blocks arrives d' v small fits rest in
      read_blocks_step n net cache st (length bytes) (partial bytes from) from i b blocks piece
        (partial bytes (from + b.size)) b.crc32 (from + b.size) (arrives i) answer same put
      ∙ ih
