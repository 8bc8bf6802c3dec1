-- ===== src/IdGen/Sequence.antt =====
-- The sequence numbers of NextId: what a run of calls within one millisecond gives, and that the
-- identifiers of a node grow as long as no millisecond takes more than 4096 calls.
use openfs.Common.{
  ℕ, zero, suc, ◌+◌, ◌-◌, ◌*◌, ◌%◌, ◌^◌, ◌<◌, ◌≤◌, ◌≡◌, ◌≢◌, ◌⊎◌, arith, u64_mod, ap, List, [], ◌∷◌,
  refl, ◌∙◌, sym, inl, inr, subst, ◌==◌, if◌then◌else◌,
}
use native.Mathlib.Decide.{ℕ_discrete}
use openfs.IdGen.{IdGenerator, Clock, pack, settle, next_id, next_ids}
use openfs.IdGen.Layout.{pack_sum, counter-small, next_id-pack}

-- A clock that shows the same reading during the whole call.
abbrev pub still : ℕ → Clock
still now = record { now = now; next = now }

module _ (g : IdGenerator) (clock : Clock) where
  pub next_id_state :
      ((next_id g clock).1.sequence ≡ ((settle g clock).0 + 1) % u64_mod)
      × ((next_id g clock).1.last_timestamp_ms ≡ (settle g clock).1)
      × ((next_id g clock).1.node_id ≡ g.node_id)
  unfolding next_id
  next_id_state = (refl, refl, refl)

  settle_fresh :
      clock.now ≢ g.last_timestamp_ms → ((settle g clock).0 ≡ 0) × ((settle g clock).1 ≡ clock.now)
  unfolding settle
  settle_fresh h = ground arith

  settle_same : clock.now ≡ g.last_timestamp_ms → (settle g clock).0 ≡ (g.sequence + 1) % u64_mod
  unfolding settle
  settle_same h = ground arith

  settle_even : g.sequence % 2 ≡ 1 → ((settle g clock).0 < u64_mod) × ((settle g clock).0 % 2 ≡ 0)
  unfolding settle
  settle_even h = ground arith

  -- After a first call the counter is odd whenever the clock has not moved on, and the test that
  -- the 13 bits have run out, `seq == 0`, is never met: NextId does not wait.
  pub settle_odd :
      (clock.now ≢ g.last_timestamp_ms) ⊎ (g.sequence % 2 ≡ 1) → (settle g clock).1 ≡ clock.now
  unfolding settle
  settle_odd h = ground (arith, counter-small g.sequence, h)

  -- The counter is odd after every call that meets a clock that has moved on or an odd counter.
  pub next_id_odd :
      (clock.now ≢ g.last_timestamp_ms) ⊎ (g.sequence % 2 ≡ 1)
      → (next_id g clock).1.sequence % 2 ≡ 1
  unfolding next_id
  next_id_odd h = ground (arith, counter-small g.sequence, h)

-- The state after `k` calls in the millisecond `now`.
unfoldable pub after : ℕ → IdGenerator → ℕ → IdGenerator
after zero g now = g
after (suc k) g now = (next_id (after k g now) (still now)).1

module _ (g : IdGenerator) (now : ℕ) (fresh : now ≢ g.last_timestamp_ms) where
  -- Call number k + 1 in a millisecond leaves the counter at 2k + 1: each call takes two numbers
  -- off it, the first one excepted.
  pub after-suc :
      (k : ℕ)
      → 2 * k + 1 < u64_mod
      → ((after (suc k) g now).sequence ≡ 2 * k + 1)
        × ((after (suc k) g now).last_timestamp_ms ≡ now)
        × ((after (suc k) g now).node_id ≡ g.node_id)
  unfolding after
  after-suc zero h =
      let new = next_id_state g (still now) in
      let (counter, time) = settle_fresh g (still now) fresh in
      (omega (arith, new.0, counter), new.1 ∙ time, new.2)
  after-suc (suc k) h =
      let g' = after (suc k) g now in
      let (seq, last, node) = after-suc k (omega arith) in
      let new = next_id_state g' (still now) in
      let counter = settle_same g' (still now) (omega (arith, last)) in
      let time = settle_odd g' (still now) (inr (omega (arith, seq))) in
      (omega (arith, new.0, counter, seq), new.1 ∙ time, new.2 ∙ node)

  -- The identifier of call number k + 1 in a millisecond carries the sequence number 2k modulo
  -- 2^13.
  pub next_id-after :
      (k : ℕ)
      → 2 * k + 2 < u64_mod
      → (next_id (after k g now) (still now)).0 ≡ pack now g.node_id (2 * k % 2 ^ 13)
  next_id-after zero h =
      let (counter, time) = settle_fresh g (still now) fresh in
      unfold after in next_id-pack g (still now) ∙ rw (counter, time)
  next_id-after (suc k) h =
      let g' = after (suc k) g now in
      let (seq, last, node) = after-suc k (omega arith) in
      let counter : (settle g' (still now)).0 ≡ 2 * suc k =
        omega (arith, settle_same g' (still now) (omega (arith, last)), seq) in
      let time = settle_odd g' (still now) (inr (omega (arith, seq))) in
      next_id-pack g' (still now) ∙ rw (counter, time, node)

  -- In a millisecond that the generator has not seen last, the identifier of call k + 4096 is
  -- that of call k again, as long as the counter does not wrap at 64 bits.
  pub next_id_repeats :
      (k : ℕ)
      → 2 * k + 8194 < u64_mod
      → (next_id (after (k + 4096) g now) (still now)).0 ≡ (next_id (after k g now) (still now)).0
  next_id_repeats k h =
      let wraps : 2 * (k + 4096) % 2 ^ 13 ≡ 2 * k % 2 ^ 13 = omega arith in
      next_id-after (k + 4096) (omega arith)
      ∙ ap (pack now g.node_id) wraps
      ∙ sym (next_id-after k (omega arith))

-- For a node id of 10 bits, the first 4096 calls of NextId in a millisecond that the generator
-- has not seen last give growing identifiers.
pub next_id-after_mono :
    (g : IdGenerator) (now j k : ℕ)
    → now ≢ g.last_timestamp_ms
    → g.node_id < 2 ^ 10
    → j < k
    → k < 4096
    → (next_id (after j g now) (still now)).0 < (next_id (after k g now) (still now)).0
next_id-after_mono g now j k fresh node lt le =
    rw
      (
        next_id-after g now fresh j (omega arith),
        next_id-after g now fresh k (omega arith),
        pack_sum now g.node_id (2 * j % 2 ^ 13) node (omega arith),
        pack_sum now g.node_id (2 * k % 2 ^ 13) node (omega arith),
      )
      (omega arith)

-- What a call whose clock has not gone back finds: the counter is odd once the generator was used,
-- and fewer than 4096 calls were made in the current millisecond.
abbrev pub Ready : IdGenerator → Clock → Type 0
Ready g clock =
    (g.last_timestamp_ms ≤ clock.now)
    × (clock.now < 2 ^ 41)
    × (g.node_id < 2 ^ 10)
    × (g.sequence % 2 ≡ 1)
    × ((clock.now ≢ g.last_timestamp_ms) ⊎ (g.sequence + 1 < 2 ^ 13))

-- The identifier that was made last, read off the state.
abbrev pub last_id : IdGenerator → ℕ
last_id g = pack g.last_timestamp_ms g.node_id ((g.sequence - 1) % 2 ^ 13)

grows_fresh :
    (g : IdGenerator) (clock : Clock)
    → Ready g clock
    → clock.now ≢ g.last_timestamp_ms
    → last_id g < (next_id g clock).0
grows_fresh g clock ready moved =
    let (counter, time) = settle_fresh g clock moved in
    rw
      (
        next_id-pack,
        counter,
        time,
        pack_sum clock.now g.node_id (0 % 2 ^ 13) ready.2 (omega arith),
        pack_sum g.last_timestamp_ms g.node_id ((g.sequence - 1) % 2 ^ 13) ready.2 (omega arith),
      )
      (omega (arith, ready.0, ready.1, moved))

grows_same :
    (g : IdGenerator) (clock : Clock)
    → Ready g clock
    → clock.now ≡ g.last_timestamp_ms
    → g.sequence + 1 < 2 ^ 13
    → last_id g < (next_id g clock).0
grows_same g clock ready same more =
    let counter = settle_same g clock same in
    let time = settle_odd g clock (inr ready.3) in
    rw
      (
        next_id-pack,
        counter,
        time,
        pack_sum clock.now g.node_id ((g.sequence + 1) % u64_mod % 2 ^ 13) ready.2 (omega arith),
        pack_sum g.last_timestamp_ms g.node_id ((g.sequence - 1) % 2 ^ 13) ready.2 (omega arith),
      )
      (omega (arith, ready.3, more, same))

-- An identifier is larger than the one before it.
next_id-grows : (g : IdGenerator) (clock : Clock) → Ready g clock → last_id g < (next_id g clock).0
next_id-grows g clock ready = elim (ℕ_discrete clock.now g.last_timestamp_ms) [
  | yes same ↦ elim ready.4 [
    | inl moved ↦ absurd (moved same)
    | inr more ↦ grows_same g clock ready same more
  ]
  | no moved ↦ grows_fresh g clock ready moved
]

-- The identifier that a call returns is the one that its state shows afterwards.
last_id-next_id :
    (g : IdGenerator) (clock : Clock)
    → Ready g clock
    → last_id (next_id g clock).1 ≡ (next_id g clock).0
last_id-next_id g clock ready =
    let (seq, time, node) = next_id_state g clock in
    let number : ((next_id g clock).1.sequence - 1) % 2 ^ 13 ≡ (settle g clock).0 % 2 ^ 13 =
      omega (arith, seq, settle_even g clock ready.3) in
    rw (number, time, node, next_id-pack)

-- Every call of a run is made in a state that is `Ready` for it.
abbrev pub AllReady : IdGenerator → List Clock → Type 0
AllReady g [] = Unit
AllReady g (clock ∷ rest) = Ready g clock × AllReady (next_id g clock).1 rest

abbrev pub Ascending : ℕ → List ℕ → Type 0
Ascending bound [] = Unit
Ascending bound (id ∷ ids) = (bound < id) × Ascending id ids

AllReady-Ascending :
    (g : IdGenerator) (clocks : List Clock)
    → AllReady g clocks
    → Ascending (last_id g) (next_ids g clocks).0
unfolding next_ids
AllReady-Ascending g [] ready = tt
AllReady-Ascending g (clock ∷ rest) ready = (
  next_id-grows g clock ready.0,
  rw (last_id-next_id g clock ready.0) at (AllReady-Ascending (next_id g clock).1 rest ready.1),
)

-- The clock does not go back from `from` on, and fits 41 bits.
abbrev pub Onward : ℕ → List Clock → Type 0
Onward from [] = Unit
Onward from (clock ∷ rest) = (from ≤ clock.now) × (clock.now < 2 ^ 41) × Onward clock.now rest

-- The calls whose clock shows the millisecond `now`.
unfoldable pub calls_in : ℕ → List Clock → ℕ
calls_in now [] = 0
calls_in now (clock ∷ rest) =
    let others = calls_in now rest in if clock.now == now then suc others else others

-- Each identifier is larger than the one before it.
abbrev pub Increasing : List ℕ → Type 0
Increasing [] = Unit
Increasing (id ∷ ids) = Ascending id ids

-- After `j` calls in the millisecond seen last, with few enough calls to come in any millisecond,
-- every call is ready.
settled-AllReady :
    (g : IdGenerator) (clocks : List Clock) (j : ℕ)
    → g.node_id < 2 ^ 10
    → g.sequence + 1 ≡ 2 * j
    → Onward g.last_timestamp_ms clocks
    → j + calls_in g.last_timestamp_ms clocks ≤ 4096
    → ((now : ℕ) → calls_in now clocks ≤ 4096)
    → AllReady g clocks
unfolding calls_in
settled-AllReady g [] j node counted onward few most = tt
settled-AllReady g (clock ∷ rest) j node counted (le, small, onward) few most =
    let (seq, time, same_node) = next_id_state g clock in
    let odd : g.sequence % 2 ≡ 1 = omega (arith, counted) in
    let shown : (next_id g clock).1.last_timestamp_ms ≡ clock.now =
      time ∙ settle_odd g clock (inr odd) in
    let node' : (next_id g clock).1.node_id < 2 ^ 10 = omega (arith, same_node, node) in
    let onward' : Onward (next_id g clock).1.last_timestamp_ms rest =
      subst (λ (n : ℕ). Onward n rest) (sym shown) onward in
    let later : (now : ℕ) → calls_in now rest ≤ 4096 = (λ now. ground (arith, most now)) in
    elim (ℕ_discrete clock.now g.last_timestamp_ms) [
      | yes same ↦
          let more : j + suc (calls_in g.last_timestamp_ms rest) ≤ 4096 =
            ground (arith, few, same) in
          let counter = settle_same g clock same in
          (
            (le, small, node, odd, inr (omega (arith, counted, more))),
            settled-AllReady (next_id g clock).1 rest (suc j) node'
                (omega (arith, seq, counter, counted, more)) onward'
                (rw (shown, same) (omega (arith, more))) later,
          )
      | no moved ↦
          let (counter, _) = settle_fresh g clock moved in
          let own : suc (calls_in clock.now rest) ≤ 4096 = ground (arith, most clock.now) in
          (
            (le, small, node, odd, inl moved),
            settled-AllReady (next_id g clock).1 rest 1 node' (omega (arith, seq, counter)) onward'
                (rw shown (omega (arith, own))) later,
          )
    ]

-- The identifiers of a run of calls grow from each to the next, when the clock fits 41 bits and
-- never goes back, no millisecond has more than 4096 of the calls, the first one is in a later
-- millisecond than the generator has seen last, and the node id fits 10 bits; the counter of the
-- generator may be any.
pub next_ids-Increasing :
    (g : IdGenerator) (clock : Clock) (rest : List Clock)
    → g.node_id < 2 ^ 10
    → g.last_timestamp_ms < clock.now
    → Onward clock.now (clock ∷ rest)
    → ((now : ℕ) → calls_in now (clock ∷ rest) ≤ 4096)
    → Increasing (next_ids g (clock ∷ rest)).0
unfolding next_ids calls_in
next_ids-Increasing g clock rest node fresh (_, small, onward) most =
    let moved : clock.now ≢ g.last_timestamp_ms = (λ e. omega (arith, e, fresh)) in
    let (seq, time, same_node) = next_id_state g clock in
    let (counter, at) = settle_fresh g clock moved in
    let shown : (next_id g clock).1.last_timestamp_ms ≡ clock.now = time ∙ at in
    let number : ((next_id g clock).1.sequence - 1) % 2 ^ 13 ≡ (settle g clock).0 % 2 ^ 13 =
      omega (arith, seq, counter) in
    let first : last_id (next_id g clock).1 ≡ (next_id g clock).0 =
      rw (number, time, same_node, next_id-pack) in
    let own : suc (calls_in clock.now rest) ≤ 4096 = ground (arith, most clock.now) in
    let later : (now : ℕ) → calls_in now rest ≤ 4096 = (λ now. ground (arith, most now)) in
    subst (λ (id : ℕ). Ascending id (next_ids (next_id g clock).1 rest).0) first
      (AllReady-Ascending (next_id g clock).1 rest (
        settled-AllReady (next_id g clock).1 rest 1 (omega (arith, same_node, node))
          (omega (arith, seq, counter)) (subst (λ (n : ℕ). Onward n rest) (sym shown) onward)
          (rw shown (omega (arith, own))) later))
