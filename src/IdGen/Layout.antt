-- ===== src/IdGen/Layout.antt =====
-- The three fields of an identifier.
use openfs.Common.{ℕ, ◌+◌, ◌*◌, ◌/◌, ◌%◌, ◌^◌, ◌<◌, ◌≡◌, ◌≢◌, bit_and, arith, u64_mod, ap}
use openfs.Common.Bits.{bit_or_disjoint, bit_and_ones}
use openfs.IdGen.{IdGenerator, Clock, init, pack, settle, next_id}

-- An identifier is the sum of its fields.
pub pack_sum :
    (now node_id seq : ℕ)
    → node_id < 2 ^ 10
    → seq < 2 ^ 13
    → pack now node_id seq ≡ now % 2 ^ 41 * 2 ^ 23 + node_id * 2 ^ 13 + seq
unfolding pack
pack_sum now node_id seq hn hs =
    let time = bit_and_ones 41 now in
    let t = now % 2 ^ 41 in
    let top : bit_and now 0x1ffffffffff * 2 ^ 23 % u64_mod ≡ t * 2 ^ 23 = omega (arith, time) in
    let middle : node_id * 2 ^ 13 % u64_mod ≡ node_id * 2 ^ 13 = omega arith in
    let high = bit_or_disjoint 23 t (node_id * 2 ^ 13) (omega arith) in
    let shifted : t * 2 ^ 23 + node_id * 2 ^ 13 ≡ (t * 2 ^ 10 + node_id) * 2 ^ 13 = omega arith in
    let low = bit_or_disjoint 13 (t * 2 ^ 10 + node_id) seq hs in
    rw (top, middle, high, shifted, low) (omega arith)

-- The timestamp, the node and the sequence number of an identifier can be read back from it, for
-- a node and a sequence number that fit their fields.
pub pack_fields :
    (now node_id seq : ℕ)
    → node_id < 2 ^ 10
    → seq < 2 ^ 13
    → (pack now node_id seq / 2 ^ 23 ≡ now % 2 ^ 41)
      × (pack now node_id seq / 2 ^ 13 % 2 ^ 10 ≡ node_id)
      × (pack now node_id seq % 2 ^ 13 ≡ seq)
pack_fields now node_id seq hn hs = rw pack_sum (omega arith)

pub counter-small : (counter : ℕ) → bit_and counter 0x1fff ≡ counter % 2 ^ 13
counter-small counter = bit_and_ones 13 counter

pub node_id-init : (node_id : ℕ) → (init node_id).node_id < 2 ^ 10
unfolding init
node_id-init node_id = omega (arith, bit_and_ones 10 node_id)

pub next_id-pack :
    (g : IdGenerator) (clock : Clock)
    → (next_id g clock).0 ≡ pack (settle g clock).1 g.node_id ((settle g clock).0 % 2 ^ 13)
unfolding next_id
next_id-pack g clock = ap (pack (settle g clock).1 g.node_id) (counter-small (settle g clock).0)

-- Two generators of different node ids of 10 bits never make the same identifier, whatever their
-- clocks and counters.
pub next_id-ne_of_node_id :
    (g h : IdGenerator) (c d : Clock)
    → g.node_id < 2 ^ 10
    → h.node_id < 2 ^ 10
    → g.node_id ≢ h.node_id
    → (next_id g c).0 ≢ (next_id h d).0
next_id-ne_of_node_id g h c d hg hh ne e =
    let p = pack_fields (settle g c).1 g.node_id ((settle g c).0 % 2 ^ 13) hg (omega arith) in
    let q = pack_fields (settle h d).1 h.node_id ((settle h d).0 % 2 ^ 13) hh (omega arith) in
    ne (omega (arith, p.1, q.1, e, next_id-pack g c, next_id-pack h d))
