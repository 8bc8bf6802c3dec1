-- ===== src/Disk/Refinement.antt =====
-- A disk as a store of blocks by offset: what requests may answer, and that the disk does so.
use openfs.Common.{ℕ, ◌≡◌, ◌≢◌, inl, inr, List, [], ◌∷◌, arith, ap, some, none, All}
use openfs.Common.Map
use openfs.Common.Map.{Map, find-put, find-erase}
use openfs.Types.{Status, no_space, Result, ok, err}
use openfs.Disk.{DiskManager, DiskBlock, read_block, delete_block}
use openfs.Disk.Layout.{Block, Fits, size_of, read_block-Holds, calc_physical_blocks_lem}
use openfs.Disk.Store.{Represents}
use openfs.Disk.Writing.{store, store-Represents}
use openfs.Disk.Deleting.{delete_block-Represents}

pub data Request : Type 0 where
  write : Block → Request
  read : (offset : ℕ) → Request
  delete : (offset size : ℕ) → Request

pub data Answer : Type 0 where
  stored : (offset : ℕ) → Answer
  found : DiskBlock → Answer
  deleted : Answer
  refused : Status → Answer

-- A store of blocks may take a block at any new offset, or refuse it for want of space; it finds
-- what it has, and forgets it on demand.
pub data Step (blocks : Map Block) : Request → Answer → Map Block → Type 0 where
  takes :
      (b : Block) (o : ℕ)
      → Map.find o blocks ≡ none
      → Step blocks (write b) (stored o) (Map.put o b blocks)
  full : (b : Block) → Step blocks (write b) (refused no_space) blocks
  finds :
      (o : ℕ) (b : Block)
      → Map.find o blocks ≡ some b
      → Step blocks (read o) (found b.content) blocks
  forgets :
      (o : ℕ) (b : Block)
      → Map.find o blocks ≡ some b
      → Step blocks (delete o (size_of b)) deleted (Map.erase o blocks)

pub data Trace : Map Block → List Request → List Answer → Map Block → Type 0 where
  done : {blocks : Map Block} → Trace blocks [] [] blocks
  more :
      {blocks : Map Block} {q : Request} {a : Answer} {qs : List Request} {answers : List Answer}
      {next last : Map Block}
      → Step blocks q a next
      → Trace next qs answers last
      → Trace blocks (q ∷ qs) (a ∷ answers) last

abbrev answer_of {ℓ} : {A : Type ℓ} → (A → Answer) → Result A → Answer
answer_of f (ok x) = f x
answer_of f (err s) = refused s

unfoldable pub handle : DiskManager → Request → DiskManager × Answer
handle d (write b) = let (d', r) = store d b in (d', answer_of stored r)
handle d (read o) = let (d', r) = read_block d o in (d', answer_of found r)
handle d (delete o size) = let (d', r) = delete_block d o size in (d', answer_of (λ _. deleted) r)

unfoldable pub run : DiskManager → List Request → DiskManager × List Answer
run d [] = (d, [])
run d (q ∷ qs) = let (d', a) = handle d q in let (last, answers) = run d' qs in (last, a ∷ answers)

-- The store that a request leaves, by the answer that it got.
unfoldable pub advance : Map Block → Request → Answer → Map Block
advance blocks (write b) (stored o) = Map.put o b blocks
advance blocks (write b) _ = blocks
advance blocks (read o) _ = blocks
advance blocks (delete o size) deleted = Map.erase o blocks
advance blocks (delete o size) _ = blocks

-- A request that a client may make: it writes numbers that fit, and reads and deletes blocks that
-- are there.
unfoldable pub Legal : Map Block → Request → Type 0
Legal blocks (write b) = Fits b
Legal blocks (read o) = (b : Block) × (Map.find o blocks ≡ some b)
Legal blocks (delete o size) = (b : Block) × (Map.find o blocks ≡ some b) × (size ≡ size_of b)

unfoldable pub AllLegal : DiskManager → Map Block → List Request → Type 0
unfolding handle advance Legal
AllLegal d blocks [] = Unit
AllLegal d blocks (q ∷ qs) =
    Legal blocks q × AllLegal (handle d q).0 (advance blocks q (handle d q).1) qs

pub read_block-Represents :
    (d : DiskManager) (blocks : Map Block) (o : ℕ) (b : Block)
    → Represents d blocks
    → Map.find o blocks ≡ some b
    → read_block d o ≡ (d, ok b.content)
read_block-Represents d blocks o b r there =
    let s = r.slots o b there in
    let v = r.valid in
    let e = calc_physical_blocks_lem (size_of b) s.fits.size_fits in
    read_block-Holds d o b s.fits (omega (arith, s.at, s.inside, v.room, v.no_wrap, e)) v.opened
      v.good s.held

pub handle-Step :
    (d : DiskManager) (blocks : Map Block) (q : Request)
    → Represents d blocks
    → Legal blocks q
    → Step blocks q (handle d q).1 (advance blocks q (handle d q).1)
      × Represents (handle d q).0 (advance blocks q (handle d q).1)
unfolding handle advance Legal
handle-Step d blocks (write b) r fits = elim (store-Represents d blocks b r fits) [
  | inl (e, _) ↦ rw e (full b, r)
  | inr (o, e, fresh, r') ↦ rw e (takes b o fresh, r')
]
handle-Step d blocks (read o) r (b, there) =
    rw (read_block-Represents d blocks o b r there) (finds o b there, r)
handle-Step d blocks (delete o size) r (b, there, sized) =
    let (e, r') = delete_block-Represents d blocks r o b there in
    rw sized (rw e (forgets o b there, r'))

-- Any run of legal requests on a disk that stores some blocks is a run of the store of these
-- blocks, with the same answers, and the disk then stores what the store has.
pub run-Trace :
    (d : DiskManager) (blocks : Map Block) (qs : List Request)
    → Represents d blocks
    → AllLegal d blocks qs
    → (last : Map Block) × Trace blocks qs (run d qs).1 last × Represents (run d qs).0 last
unfolding run AllLegal
run-Trace d blocks [] r legal = (blocks, done, r)
run-Trace d blocks (q ∷ qs) r (legal, later) =
    let (s, r') = handle-Step d blocks q r legal in
    let (last, t, r'') = run-Trace (handle d q).0 (advance blocks q (handle d q).1) qs r' later in
    (last, more s t, r'')

-- The request does not delete what stands at the offset.
unfoldable pub Spares : ℕ → Request → Type 0
Spares o (write b) = Unit
Spares o (read p) = Unit
Spares o (delete p size) = p ≢ o

Step-Spares :
    (o : ℕ) (b : Block) (q : Request) {blocks next : Map Block} {a : Answer}
    → Step blocks q a next
    → Spares o q
    → Map.find o blocks ≡ some b
    → Map.find o next ≡ some b
unfolding Spares
Step-Spares o b (write c) {blocks} (takes _ p fresh) spared there =
    ground (arith, find-put o p c blocks, fresh, there)
Step-Spares o b (write c) (full _) spared there = there
Step-Spares o b (read p) (finds _ c _) spared there = there
Step-Spares o b (delete p size) {blocks} (forgets _ c _) spared there =
    ground (arith, find-erase o p blocks, spared, there)

Trace-Spares :
    (o : ℕ) (b : Block) (qs : List Request) {blocks last : Map Block} {answers : List Answer}
    → Trace blocks qs answers last
    → All (Spares o) qs
    → Map.find o blocks ≡ some b
    → Map.find o last ≡ some b
Trace-Spares o b [] done spared there = there
Trace-Spares o b (q ∷ qs) (more s t) (spared, later) there =
    Trace-Spares o b qs t later (Step-Spares o b q s spared there)

-- A block that the disk stores is read back from its offset after any run of legal requests that
-- does not delete it.
pub read_block-run :
    (d : DiskManager) (blocks : Map Block) (o : ℕ) (b : Block) (qs : List Request)
    → Represents d blocks
    → Map.find o blocks ≡ some b
    → AllLegal d blocks qs
    → All (Spares o) qs
    → (read_block (run d qs).0 o).1 ≡ ok b.content
read_block-run d blocks o b qs r there legal spared =
    let (last, t, r') = run-Trace d blocks qs r legal in
    ap (λ (x : DiskManager × Result DiskBlock). x.1)
      (read_block-Represents (run d qs).0 last o b r' (Trace-Spares o b qs t spared there))
