-- ===== src/Sfs/Create.antt =====
-- `sfs_loadsector` and `sfs_create` of src/sfs.c. `loadsector` is U-Boot's, `none` where it fails.
use ub2lb.Prelude.{ℕ, ◌+◌, ◌*◌, ◌/◌, ◌≡◌, refl, Option, none, some, Bytes, ◌==◌, if◌then◌else◌}
use ub2lb.Support.{word}
use ub2lb.Rdb.{RdbPartition}
use ub2lb.Sfs.{Block, Sector, long_at, soc_id, first_object, block_or, Load}
use ub2lb.Sfs.Directory.{Search, object, sfs_loadfile}

abbrev pub srb_id : ℕ
srb_id = 0x5346_5300

-- The start, the size of a sector and the number of sectors.
abbrev pub LoadSector : Type 0
LoadSector = ℕ → ℕ → ℕ → Option Block

unfoldable pub sfs_loadsector : LoadSector → RdbPartition → ℕ → Sector
sfs_loadsector loadsector partition blocksize block =
    loadsector (word (partition.info.start + block * (blocksize / 512))) partition.info.blksz
      (blocksize / 512)

-- Fields of `struct SfsRootBlock`.
abbrev pub blocksize_of : Block → ℕ
blocksize_of b = long_at b 52

abbrev pub rootobjectcontainer : Block → ℕ
rootobjectcontainer b = long_at b 104

abbrev pub extentbnoderoot_of : Block → ℕ
extentbnoderoot_of b = long_at b 108

-- `sfs_boot_dev_t`
pub record SfsBootDev : Type 0 where
  pub partition : RdbPartition
  pub blocksize : ℕ
  pub extentbnoderoot : ℕ
  pub root : Search

-- `fresh` is what `malloc` leaves in the buffer; a read that fails leaves it as it was.
unfoldable pub sfs_create : LoadSector → Block → RdbPartition → Option SfsBootDev
unfolding sfs_loadsector
sfs_create loadsector fresh partition =
    let super = block_or fresh (loadsector partition.info.start partition.info.blksz 64) in
    let blocksize = blocksize_of super in
    let container =
      block_or super (sfs_loadsector loadsector partition blocksize (rootobjectcontainer super)) in
    let dev : SfsBootDev = record {
      partition = partition;
      blocksize = blocksize;
      extentbnoderoot = extentbnoderoot_of super;
      root = object container first_object;
    } in
    if long_at super 0 == srb_id
    then (if long_at container 0 == soc_id then some dev else none)
    else none

-- The `load_file` of the device.
unfoldable pub load_from : LoadSector → ℕ → Block → SfsBootDev → Bytes → Option Load
unfolding sfs_loadsector
load_from loadsector fuel fresh dev filename =
    sfs_loadfile (sfs_loadsector loadsector dev.partition dev.blocksize) dev.blocksize
      dev.extentbnoderoot fuel fresh dev.root filename

-- A device of `sfs_create` has the root directory of the partition: its block size and the root of its extents are those
-- of the first block of the partition, and its root is the first object of the container that this block names, if both can be read.
pub sfs_create-root :
    (loadsector : LoadSector) (fresh super container : Block) (partition : RdbPartition)
    → loadsector partition.info.start partition.info.blksz 64 ≡ some super
    → sfs_loadsector loadsector partition (blocksize_of super) (rootobjectcontainer super)
      ≡ some container
    → long_at super 0 ≡ srb_id
    → long_at container 0 ≡ soc_id
    → sfs_create loadsector fresh partition
      ≡ some (record {
        partition = partition;
        blocksize = blocksize_of super;
        extentbnoderoot = extentbnoderoot_of super;
        root = object container first_object;
      })
unfolding sfs_create
sfs_create-root loadsector fresh super container partition e f g h =
    rw (e, f, g, h, sfs_create) refl
