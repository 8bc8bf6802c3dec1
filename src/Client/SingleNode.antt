-- ===== src/Client/SingleNode.antt =====
-- One data node, at whatever address the client calls, serves blocks as the client counts on.
use openfs.Common.{ℕ, List, ◌≡◌, ◌∙◌, ap, refl, ◌<◌, ◌+◌, length, u32_mod, u64_mod}
use openfs.Common.Map.{Map}
use openfs.Types.{ok}
use openfs.Disk.Layout.{Block}
use openfs.Node.{DataNode, serve_write, serve_read}
use openfs.Node.Stores.{Keeps, Stands}
use openfs.Node.Storing.{block_of, serve_write-Answered, serve_read-Stands}
use openfs.Client.{DataNodes}
use openfs.Client.Assembly.{ServesBlocks}

abbrev pub single_node : DataNodes
single_node = record {
  State = DataNode;
  write_block = λ n addr block_id payload crc32. serve_write n block_id payload crc32;
  read_block = λ n addr segment_id offset. serve_read n segment_id offset;
}

-- The node stores a block with this data and this checksum there.
pub record HoldsBlock (n : DataNode) (seg off : ℕ) (payload : List ℕ) (crc32 : ℕ) : Type 0 where
  pub stores : List (Map Block)
  pub block : Block
  pub keeps : Keeps n stores
  pub stands : Stands stores seg off block
  pub same_payload : block.content.payload ≡ payload
  pub same_crc : block.content.crc32 ≡ crc32

pub record IsKept (n : DataNode) : Type 0 where
  pub stores : List (Map Block)
  pub keeps : Keeps n stores

pub writes_law :
    (n : DataNode) (block_id : ℕ) (payload : List ℕ) (crc32 : ℕ)
    → IsKept n
    → block_id < u64_mod
    → length payload + 4127 < u32_mod
    → let n' = (serve_write n block_id payload crc32).0 in
      IsKept n'
      × ((seg off : ℕ) (p : List ℕ) (c : ℕ) → HoldsBlock n seg off p c → HoldsBlock n' seg off p c)
      × ((seg off : ℕ)
          → (serve_write n block_id payload crc32).1 ≡ ok (seg, off)
          → HoldsBlock n' seg off payload crc32)
writes_law n block_id payload crc32 v id_fits size_fits =
    let (new, k, _, put) =
      serve_write-Answered n v.stores block_id payload crc32 v.keeps id_fits size_fits in
    (
      record { stores = new; keeps = k },
      λ seg off p c h.
          let (new', k', grows, _) =
            serve_write-Answered n h.stores block_id payload crc32 h.keeps id_fits size_fits in
          record {
            stores = new';
            block = h.block;
            keeps = k';
            stands = grows seg off h.block h.stands;
            same_payload = h.same_payload;
            same_crc = h.same_crc;
          },
      λ seg off e. record {
        stores = new;
        block = block_of block_id payload crc32;
        keeps = k;
        stands = put seg off e;
        same_payload = refl;
        same_crc = refl;
      },
    )

pub reads_law :
    (n : DataNode) (seg off : ℕ) (p : List ℕ) (c : ℕ)
    → HoldsBlock n seg off p c
    → serve_read n seg off ≡ (n, ok (p, c))
reads_law n seg off p c h =
    serve_read-Stands n h.stores seg off h.block h.keeps h.stands
    ∙ ap (λ (x : List ℕ). (n, ok (x, h.block.content.crc32))) h.same_payload
    ∙ ap (λ (x : ℕ). (n, ok (p, x))) h.same_crc

abbrev pub single_node-ServesBlocks : ServesBlocks single_node
single_node-ServesBlocks = record {
  Valid = IsKept;
  Holds = λ n addr seg off p c. HoldsBlock n seg off p c;
  writes = λ n addr block_id payload crc32 v id_fits size_fits.
      let (v', kept, held) = writes_law n block_id payload crc32 v id_fits size_fits in
      (v', λ a seg off p c h. kept seg off p c h, held);
  reads = λ n addr seg off p c v h. reads_law n seg off p c h;
}
