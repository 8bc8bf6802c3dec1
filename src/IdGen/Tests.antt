-- ===== src/IdGen/Tests.antt =====
-- Runs of the identifier generator, and instances of the theorems about it.
use openfs.Common.{ℕ, ◌+◌, ◌≤◌, ◌≡◌, ◌≢◌, List, refl, [], ◌∷◌, arith}
use openfs.IdGen.{
  IdGenerator, Clock, init, init_id_generator, next_id, next_ids, next_sequential_id,
}
use openfs.IdGen.Layout.{next_id-ne_of_node_id}
use openfs.IdGen.Sequence
use openfs.IdGen.Sequence.{still, after, calls_in, Increasing, next_ids-Increasing}

abbrev node_five : IdGenerator
node_five = record { node_id = 5; sequence = 0; sequential_counter = 0; last_timestamp_ms = 0 }

abbrev used : IdGenerator
used = record node_five { sequence = 1; last_timestamp_ms = 1000 }

init_runs : (init 1029 ≡ node_five) × (init_id_generator used 5 ≡ node_five)
unfolding init init_id_generator
init_runs = (refl, refl)

-- 1000 << 23 | 5 << 13, then with sequence number 2.
next_ids_runs :
    (next_ids node_five (still 1000 ∷ still 1000 ∷ still 1001 ∷ [])).0
    ≡ 8388648960 ∷ 8388648962 ∷ 8397037568 ∷ []
unfolding next_ids next_id
next_ids_runs = refl

next_sequential_id_runs : (next_sequential_id node_five).0 ≡ 1
unfolding next_sequential_id
next_sequential_id_runs = refl

next_id-ne_of_node_id_example :
    (next_id node_five (still 1000)).0 ≢ (next_id (init 6) (still 1000)).0
unfolding init
next_id-ne_of_node_id_example =
    next_id-ne_of_node_id node_five (init 6) (still 1000) (still 1000) (omega arith) (omega arith)
      (omega arith)

next_id_repeats_example :
    (next_id (after (0 + 4096) node_five 1000) (still 1000)).0
    ≡ (next_id (after 0 node_five 1000) (still 1000)).0
next_id_repeats_example = Sequence.next_id_repeats node_five 1000 (omega arith) 0 (omega arith)

-- Two calls in a millisecond and one in the next.
abbrev clocks : List Clock
clocks = still 1000 ∷ still 1001 ∷ []

few_calls : (now : ℕ) → calls_in now (still 1000 ∷ clocks) ≤ 4096
unfolding calls_in
few_calls now = ground arith

next_ids-Increasing_example : Increasing (next_ids node_five (still 1000 ∷ clocks)).0
next_ids-Increasing_example =
    next_ids-Increasing node_five (still 1000) clocks (omega arith) (omega arith)
      (omega arith, omega arith, (omega arith, omega arith, (omega arith, omega arith, tt)))
      few_calls
