-- ===== src/Disk/Recovering.antt =====
-- Recover on a disk whose log begins with a block that is no entry.
use openfs.Common.{◌≡◌, ap, sym, subst, arith, [], true}
use openfs.Common.Map.{Map}
use openfs.Types.{Result, ok}
use openfs.Wal.{WalManager, replay, reset}
use openfs.Wal.Replaying.{NoFirst, replay-NoFirst}
use openfs.Disk.{DiskManager, recover, save_bitmap, roll_back}
use openfs.Disk.Layout.{Block}
use openfs.Disk.Store.{Represents, save_bitmap-Represents}

-- What a disk stores does not hang on its log.
pub wal-Represents :
    (d : DiskManager) (blocks : Map Block) (w : WalManager)
    → Represents d blocks
    → Represents (record d { wal = w }) blocks
wal-Represents d blocks w r =
    let v = r.valid in
    record {
      valid = record {
        bitmap_valid = v.bitmap_valid;
        bitmap_area = v.bitmap_area;
        bitmap_small = v.bitmap_small;
        room = v.room;
        no_wrap = v.no_wrap;
        opened = v.opened;
        good = v.good;
        running = v.running;
      };
      slots = λ o b found.
          let s = r.slots o b found in
          record {
            start = s.start;
            at = s.at;
            inside = s.inside;
            taken = s.taken;
            held = s.held;
            fits = s.fits;
          };
      apart = r.apart;
    }

-- Recover after which the replay of the log gave no entry.
recover_lem :
    (d : DiskManager)
    → d.wal.is_open ≡ true
    → (replay d.wal).1 ≡ ok []
    → let saved = save_bitmap (record d { wal = (replay d.wal).0 }) in
      recover d ≡ (record saved { wal = (reset saved.wal).0 }, ok tt)
unfolding recover roll_back
recover_lem d opened nothing = ground (arith, opened, nothing)

-- When the first block of the log holds no entry, Recover rolls nothing back, whatever was not
-- committed: it succeeds, the bitmap is what it was, the device is as after saving the bitmap,
-- and the disk stores what it stored.
pub recover-NoFirst :
    (d : DiskManager) (blocks : Map Block)
    → Represents d blocks
    → NoFirst d.wal
    → ((recover d).1 ≡ ok tt)
      × ((recover d).0.bitmap ≡ d.bitmap)
      × ((recover d).0.io ≡ (save_bitmap d).io)
      × Represents (recover d).0 blocks
unfolding save_bitmap
recover-NoFirst d blocks r first =
    let e = recover_lem d first.opened (replay-NoFirst d.wal first) in
    let saved = save_bitmap (record d { wal = (replay d.wal).0 }) in
    (
      ap (λ (x : DiskManager × Result (Unit {0})). x.1) e,
      ap (λ (x : DiskManager × Result (Unit {0})). x.0.bitmap) e,
      ap (λ (x : DiskManager × Result (Unit {0})). x.0.io) e,
      subst (λ (x : DiskManager × Result (Unit {0})). Represents x.0 blocks) (sym e)
          (wal-Represents saved blocks (reset saved.wal).0 (
            save_bitmap-Represents (record d { wal = (replay d.wal).0 }) blocks
              (wal-Represents d blocks (replay d.wal).0 r))),
    )
