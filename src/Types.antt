-- ===== src/Types.antt =====
-- src/common/types.h: status codes, block levels and the records of the metadata.
use openfs.Common.{ℕ, ◌*◌, List, [], ◌≡◌, ◌⊎◌, inl, inr, refl, Bool, false, leb, if◌then◌else◌}

-- `Status` without `kOk`, which is `Result.ok`.
pub data Status : Type 0 where
  not_found already_exists invalid_argument io_error not_directory : Status
  not_empty no_space crc_mismatch internal : Status

pub data Result {ℓ} (A : Type ℓ) : Type ℓ where
  ok : A → Result A
  err : Status → Result A

infixl 5 ◌>>=◌
abbrev pub ◌>>=◌ {ℓ κ} : {A : Type ℓ} {B : Type κ} → Result A → (A → Result B) → Result B
ok a >>= f = f a
err s >>= f = err s

pub Result-cases {ℓ} :
    {A : Type ℓ} (r : Result A) → ((s : Status) × (r ≡ err s)) ⊎ ((a : A) × (r ≡ ok a))
Result-cases (ok a) = inr (a, refl)
Result-cases (err s) = inl (s, refl)

-- A level off the wire is cast without a test: it may be a byte that names none.
pub data BlkLevel : Type 0 where
  l0 l1 l2 l3 l4 : BlkLevel
  other_level : (byte : ℕ) → BlkLevel

unfoldable pub block_level_size : BlkLevel → ℕ
block_level_size l0 = 64 * 1024
block_level_size l1 = 512 * 1024
block_level_size l2 = 4 * 1024 * 1024
block_level_size l3 = 32 * 1024 * 1024
block_level_size l4 = 256 * 1024 * 1024
block_level_size (other_level byte) = 4 * 1024 * 1024

unfoldable pub select_block_level : ℕ → BlkLevel
select_block_level file_size =
    if leb file_size (64 * 1024)
    then l0
    else if leb file_size (512 * 1024)
    then l1
    else if leb file_size (4 * 1024 * 1024)
    then l2
    else if leb file_size (32 * 1024 * 1024)
    then l3
    else l3

pub data InodeType : Type 0 where
  regular directory symlink : InodeType

-- A `std::string`, as its bytes.
abbrev pub Name : Type 0
Name = List ℕ

pub record Inode : Type 0 where
  pub inode_id : ℕ
  pub file_type : InodeType
  pub mode : ℕ
  pub uid : ℕ
  pub gid : ℕ
  pub size : ℕ
  pub nlink : ℕ
  pub atime_ns : ℕ
  pub mtime_ns : ℕ
  pub ctime_ns : ℕ
  pub block_level : BlkLevel
  pub is_packed : Bool
  pub parent_id : ℕ
  pub name : Name

-- `Inode{}`: the default member initialisers; 0644 is octal.
abbrev pub default_inode : Inode
default_inode = record {
  inode_id = 0;
  file_type = regular;
  mode = 0o644;
  uid = 0;
  gid = 0;
  size = 0;
  nlink = 1;
  atime_ns = 0;
  mtime_ns = 0;
  ctime_ns = 0;
  block_level = l2;
  is_packed = false;
  parent_id = 0;
  name = [];
}

pub record BlockMeta : Type 0 where
  pub block_id : ℕ
  pub level : BlkLevel
  pub size : ℕ
  pub crc32 : ℕ
  pub node_id : ℕ
  pub segment_id : ℕ
  pub offset : ℕ
  pub create_time : ℕ
  pub replica_count : ℕ
  pub access_count : ℕ

pub record DirEntry : Type 0 where
  pub name : Name
  pub inode_id : ℕ
  pub file_type : InodeType
