-- ===== src/Device/Laws.antt =====
-- A write is read back, and touches no piece of the file that it does not overlap.
use openfs.Common.{
  ℕ, ◌+◌, ◌≤◌, ◌≡◌, ◌⊎◌, inl, inr, ◌∙◌, ap, List, true, length, take, drop, write_over, arith,
  take-drop-write_over_self, take-drop-write_over_before, drop-write_over_after, ◌++◌,
  take-append_parts, drop-drop,
}
use openfs.Types.{ok}
use openfs.Device.{Device, read_device, write_device}

-- The device holds the piece at the offset.
abbrev pub Holds : Device → ℕ → List ℕ → Type 0
Holds d offset piece = take (length piece) (drop offset d.bytes) ≡ piece

-- What a write that succeeds tells of the device.
pub write_device_lem :
    (d : Device) (offset : ℕ) (piece : List ℕ)
    → (write_device d offset piece).1 ≡ ok tt
    → (write_device d offset piece
        ≡ (record d { bytes = write_over 0 offset piece d.bytes }, ok tt))
      × (d.is_open ≡ true)
      × (d.is_good ≡ true)
      × (offset + length piece ≤ d.capacity)
unfolding write_device
write_device_lem d offset piece done = ground arith

-- Where the device has room, an open stream that is good writes.
pub write_device-ok :
    (d : Device) (offset : ℕ) (piece : List ℕ)
    → d.is_open ≡ true
    → d.is_good ≡ true
    → offset + length piece ≤ d.capacity
    → write_device d offset piece ≡ (record d { bytes = write_over 0 offset piece d.bytes }, ok tt)
unfolding write_device
write_device-ok d offset piece opened good room = ground arith

pub write_over-Holds_self :
    (d : Device) (offset : ℕ) (piece : List ℕ)
    → Holds (record d { bytes = write_over 0 offset piece d.bytes }) offset piece
write_over-Holds_self d offset piece = take-drop-write_over_self 0 offset piece d.bytes

pub write_over-Holds :
    (d : Device) (offset at : ℕ) (piece held : List ℕ)
    → Holds d at held
    → (at + length held ≤ offset) ⊎ (offset + length piece ≤ at)
    → Holds (record d { bytes = write_over 0 offset piece d.bytes }) at held
write_over-Holds d offset at piece held h (inl before) =
    take-drop-write_over_before 0 at (length held) offset piece d.bytes before
      (omega (arith, ap length h))
    ∙ h
write_over-Holds d offset at piece held h (inr behind) =
    ap (λ (t : List ℕ). take (length held) t)
      (drop-write_over_after 0 at offset piece d.bytes behind)
    ∙ h

pub read_device-Holds :
    (d : Device) (offset size : ℕ) (piece : List ℕ)
    → d.is_open ≡ true
    → d.is_good ≡ true
    → size ≡ length piece
    → Holds d offset piece
    → read_device d offset size ≡ (d, ok piece)
unfolding read_device
read_device-Holds d offset size piece opened good sized h =
    let there : take size (drop offset d.bytes) ≡ piece =
      ap (λ (n : ℕ). take n (drop offset d.bytes)) sized ∙ h in
    ground (arith, there)

-- A device that holds two pieces in a row holds each.
pub Holds-append :
    (d : Device) (offset : ℕ) (front back : List ℕ)
    → Holds d offset (front ++ back)
    → Holds d offset front × Holds d (offset + length front) back
Holds-append d offset front back h =
    let (first, second) = take-append_parts front back (drop offset d.bytes) h in
    (
      first,
      ap (λ (t : List ℕ). take (length back) t) (drop-drop offset (length front) d.bytes) ∙ second,
    )
