-- ===== src/IdGen.antt =====
-- src/common/id_generator.h and id_generator.cpp: unique identifiers, one generator per meta node.
-- A call reads the clock, and waits on it when its sequence numbers have run out. The clock is an
-- argument: the reading at the start of the call, and the reading that ends the wait.
pub mod Layout
pub mod Sequence
mod Tests
use openfs.Common.{
  ℕ, zero, suc, ◌+◌, ◌-◌, ◌*◌, ◌%◌, ◌^◌, List, [], ◌∷◌, bit_and, bit_or, ◌==◌, if◌then◌else◌,
  u64_mod,
}

pub record IdGenerator : Type 0 where
  pub node_id : ℕ
  pub sequence : ℕ
  pub sequential_counter : ℕ
  pub last_timestamp_ms : ℕ

-- `IdGenerator(node_id)`
unfoldable pub init : ℕ → IdGenerator
init node_id = record {
  node_id = bit_and node_id 0x3ff;
  sequence = 0;
  sequential_counter = 0;
  last_timestamp_ms = 0;
}

-- `InitIdGenerator` builds the singleton anew.
unfoldable pub init_id_generator : IdGenerator → ℕ → IdGenerator
unfolding init
init_id_generator g node_id = init node_id

-- `[timestamp 41 bits][node_id 10 bits][sequence 13 bits]`; a shift of a `uint64_t` drops the high
-- bits.
unfoldable pub pack : ℕ → ℕ → ℕ → ℕ
pack now node_id seq =
    bit_or (bit_or (bit_and now 0x1ffffffffff * 2 ^ 23 % u64_mod) (node_id * 2 ^ 13 % u64_mod)) seq

-- The readings of the clock in a call: `now`, and `next`, the first one after the wait.
pub record Clock : Type 0 where
  pub now : ℕ
  pub next : ℕ

-- The first `if` of `NextId`: the counter and the time with which the identifier is made.
unfoldable pub settle : IdGenerator → Clock → ℕ × ℕ
settle g clock =
    if clock.now == g.last_timestamp_ms
    then (if bit_and g.sequence 0x1fff == 0
        then ((g.sequence + 1) % u64_mod, clock.next)
        else ((g.sequence + 1) % u64_mod, clock.now))
    else (0, clock.now)

unfoldable pub next_id : IdGenerator → Clock → ℕ × IdGenerator
unfolding settle pack
next_id g clock =
    let (counter, now) = settle g clock in
    (
      pack now g.node_id (bit_and counter 0x1fff),
      record g { sequence = (counter + 1) % u64_mod; last_timestamp_ms = now },
    )

unfoldable pub next_sequential_id : IdGenerator → ℕ × IdGenerator
next_sequential_id g =
    let old = g.sequential_counter in
    ((old + 1) % u64_mod, record g { sequential_counter = (old + 1) % u64_mod })

-- A run of calls, the readings of the clock given.
unfoldable pub next_ids : IdGenerator → List Clock → List ℕ × IdGenerator
next_ids g [] = ([], g)
next_ids g (clock ∷ rest) =
    let (id, g') = next_id g clock in let (ids, g'') = next_ids g' rest in (id ∷ ids, g'')
