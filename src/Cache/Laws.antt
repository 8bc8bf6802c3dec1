-- ===== src/Cache/Laws.antt =====
-- The cache keeps to its capacity, gives what was put last, and evicts the least recently used.
use openfs.Common.{
  ℕ, zero, suc, ◌+◌, ◌*◌, ◌%◌, ◌<◌, ◌≤◌, ◌≡◌, ◌⊎◌, inl, inr, List, [], ◌∷◌, none, some, Bool, true,
  false, length, ltb, u64_mod, arith, refl, ap, ◌∙◌, Option-cases, Bool-cases,
}
use openfs.Cache.{CacheEntry, is_expired, find_key, erase_key, pop_back, evict, get, put}

length-pop_back : {A : Type 0} (x : A) (xs : List A) → length (pop_back (x ∷ xs)) ≡ length xs
unfolding pop_back
length-pop_back x [] = refl
length-pop_back x (y ∷ xs) = ap suc (length-pop_back y xs)

evict-few :
    {A : Type 0} (rounds max_entries : ℕ) (xs : List A)
    → length xs ≤ max_entries
    → evict rounds max_entries xs ≡ xs
unfolding evict
evict-few zero max_entries xs few = refl
evict-few (suc rounds) max_entries xs few = ground arith

-- One entry too many: the last one goes.
evict-one :
    {A : Type 0} (rounds max_entries : ℕ) (x : A) (xs : List A)
    → length xs ≤ max_entries
    → ((evict (suc rounds) max_entries (x ∷ xs) ≡ x ∷ xs) × (length xs < max_entries))
      ⊎ ((evict (suc rounds) max_entries (x ∷ xs) ≡ pop_back (x ∷ xs)) × (length xs ≡ max_entries))
unfolding evict
evict-one rounds max_entries x xs few =
    let popped =
      evict-few rounds max_entries (pop_back (x ∷ xs)) (omega (arith, length-pop_back x xs, few)) in
    elim (Bool-cases (ltb (length xs) max_entries)) [
      | inl fits ↦ inl (ground (arith, fits), ground (arith, fits))
      | inr full ↦ inr (ground (arith, full, few, popped), ground (arith, full, few))
    ]

module _ {K V : Type 0} (same : K → K → Bool) where
  length-erase_key :
      (k : K) (entries : List (K × V)) → length (erase_key same k entries) ≤ length entries
  unfolding erase_key
  length-erase_key k [] = omega arith
  length-erase_key k ((j, v) ∷ entries) = ground (arith, length-erase_key k entries)

  -- An entry that is there leaves a gap.
  length-erase_key-some :
      (k : K) (entries : List (K × V)) (v : V)
      → find_key same k entries ≡ some v
      → length (erase_key same k entries) < length entries
  unfolding erase_key find_key
  length-erase_key-some k [] v h = cc
  length-erase_key-some k ((j, w) ∷ entries) v h = ground (arith, length-erase_key-some k entries v)

module _ {K V : Type 0} (same : K → K → Bool) (max_entries : ℕ) where
  -- Put keeps the number of entries within the capacity, for a new key and for one that is there.
  pub put-length :
      (entries : List (K × CacheEntry V)) (ttl_seconds : ℕ) (k : K) (v : V) (version now : ℕ)
      → length entries ≤ max_entries
      → length (put same entries max_entries ttl_seconds k v version now) ≤ max_entries
  unfolding put
  put-length entries ttl_seconds k v version now few =
      let e : CacheEntry V = record {
        value = v;
        version = version;
        expire_time_ns = (now + ttl_seconds * 1000000000 % u64_mod) % u64_mod;
      } in
      elim (Option-cases (find_key same k entries)) [
        | inr (old, there) ↦
            ground (arith, there, few, length-erase_key-some same k entries old there)
        | inl missing ↦ elim (evict-one (length entries) max_entries (k, e) entries few) [
          | inl (kept, fits) ↦
              ground (arith, missing, ap (λ (t : List (K × CacheEntry V)). length t) kept, fits)
          | inr (gone, full) ↦ ground (
            arith,
            missing,
            ap (λ (t : List (K × CacheEntry V)). length t) gone,
            length-pop_back (k, e) entries,
            full,
          )
        ]
      ]

module _ {K V : Type 0} (same : K → K → Bool) (max_entries ttl_seconds : ℕ) where
  abbrev entry : V → ℕ → ℕ → CacheEntry V
  entry v version now = record {
    value = v;
    version = version;
    expire_time_ns = (now + ttl_seconds * 1000000000 % u64_mod) % u64_mod;
  }

  find_none : (k : K) → find_key {V = CacheEntry V} same k [] ≡ none
  unfolding find_key
  find_none k = refl

  -- The entry that was put stands first.
  put-first :
      (entries : List (K × CacheEntry V)) (k : K) (v : V) (version now : ℕ)
      → length entries ≤ max_entries
      → 0 < max_entries
      → (rest : List (K × CacheEntry V)) × (put same entries max_entries ttl_seconds k v version now
          ≡ (k, entry v version now) ∷ rest)
  unfolding put pop_back
  put-first [] k v version now few some_room =
      let only : List (K × CacheEntry V) = (k, entry v version now) ∷ [] in
      ([], ground (arith, evict-few 1 max_entries only (omega (arith, some_room)), find_none k))
  put-first (x ∷ entries) k v version now few some_room =
      let e = entry v version now in
      elim (Option-cases (find_key same k (x ∷ entries))) [
        | inr (old, there) ↦ (erase_key same k (x ∷ entries), ground (arith, there))
        | inl missing ↦
            elim (evict-one (length (x ∷ entries)) max_entries (k, e) (x ∷ entries) few) [
              | inl (kept, _) ↦ (x ∷ entries, ground (arith, missing, kept))
              | inr (gone, _) ↦ (pop_back (x ∷ entries), ground (arith, missing, gone))
            ]
      ]

  get-first :
      (k : K) (e : CacheEntry V) (rest : List (K × CacheEntry V)) (now : ℕ)
      → same k k ≡ true
      → is_expired e now ≡ false
      → (get same ((k, e) ∷ rest) k now).1 ≡ some e.value
  unfolding get find_key
  get-first k e rest now own fresh = ground (arith, own, fresh)

  -- In a cache within its capacity, which has room for an entry, what was put last for a key is
  -- what Get gives for it until the entry expires, if the time of expiry does not wrap.
  pub get-put :
      (entries : List (K × CacheEntry V)) (k : K) (v : V) (version now later : ℕ)
      → length entries ≤ max_entries
      → 0 < max_entries
      → same k k ≡ true
      → now + ttl_seconds * 1000000000 < u64_mod
      → later ≤ now + ttl_seconds * 1000000000
      → (get same (put same entries max_entries ttl_seconds k v version now) k later).1 ≡ some v
  unfolding is_expired
  get-put entries k v version now later few some_room own no_wrap soon =
      let (rest, shape) = put-first entries k v version now few some_room in
      let at : (now + ttl_seconds * 1000000000 % u64_mod) % u64_mod
          ≡ now + ttl_seconds * 1000000000 =
        omega (arith, no_wrap) in
      ap (λ (t : List (K × CacheEntry V)). (get same t k later).1) shape
      ∙ get-first k (entry v version now) rest later own (ground (arith, at, soon))

  -- What a hit tells, and does.
  get-moves :
      (entries : List (K × CacheEntry V)) (k : K) (v : V) (now : ℕ)
      → (get same entries k now).1 ≡ some v
      → (e : CacheEntry V) × (is_expired e now ≡ false)
        × (e.value ≡ v)
        × ((get same entries k now).0 ≡ (k, e) ∷ erase_key same k entries)
        × (length ((k, e) ∷ erase_key same k entries) ≤ length entries)
  unfolding get
  get-moves entries k v now hit = elim (Option-cases (find_key same k entries)) [
    | inl missing ↦ ground (arith, missing)
    | inr (e, there) ↦ elim (Bool-cases (is_expired e now)) [
      | inl old ↦ ground (arith, there, old)
      | inr fresh ↦ (
        e,
        fresh,
        ground (arith, there, fresh, hit),
        ground (arith, there, fresh),
        omega (arith, length-erase_key-some same k entries e there),
      )
    ]
  ]

  third_goes :
      (k : K) (e : CacheEntry V) (entries : List (K × CacheEntry V)) (j : K) (f : CacheEntry V)
      → evict (suc (length ((k, e) ∷ entries))) max_entries ((j, f) ∷ (k, e) ∷ entries)
        ≡ pop_back ((j, f) ∷ (k, e) ∷ entries)
      → 0 < length entries
      → (rest : List (K × CacheEntry V)) × (evict
            (suc (length ((k, e) ∷ entries)))
            max_entries
            ((j, f) ∷ (k, e) ∷ entries)
          ≡ (j, f) ∷ (k, e) ∷ rest)
  unfolding pop_back
  third_goes k e [] j f gone some_more = absurd (omega (arith, some_more))
  third_goes k e (x ∷ entries) j f gone some_more = (pop_back (x ∷ entries), gone)

  -- What follows the entry that was put still holds a key that stood first, if there is room.
  put-second :
      (k : K) (e : CacheEntry V) (entries : List (K × CacheEntry V)) (j : K) (w : V)
      (version now : ℕ)
      → length ((k, e) ∷ entries) ≤ max_entries
      → 2 ≤ max_entries
      → same k j ≡ false
      → (rest : List (K × CacheEntry V)) × (put same
            ((k, e) ∷ entries)
            max_entries
            ttl_seconds
            j
            w
            version
            now
          ≡ (j, entry w version now) ∷ (k, e) ∷ rest)
  unfolding put pop_back erase_key
  put-second k e entries j w version now few some_room other =
      let f = entry w version now in
      elim (Option-cases (find_key same j ((k, e) ∷ entries))) [
        | inr (old, there) ↦ (erase_key same j entries, ground (arith, there, other))
        | inl missing ↦
            elim (evict-one (length ((k, e) ∷ entries)) max_entries (j, f) ((k, e) ∷ entries) few) [
              | inl (kept, _) ↦ (entries, ground (arith, missing, kept))
              | inr (gone, full) ↦
                  let (rest, left) =
                    third_goes k e entries j f gone (omega (arith, full, some_room)) in
                  (rest, ground (arith, missing, left))
            ]
      ]

  get-second :
      (j k : K) (f e : CacheEntry V) (rest : List (K × CacheEntry V)) (now : ℕ)
      → same j k ≡ false
      → same k k ≡ true
      → is_expired e now ≡ false
      → (get same ((j, f) ∷ (k, e) ∷ rest) k now).1 ≡ some e.value
  unfolding get find_key
  get-second j k f e rest now other own fresh = ground (arith, other, own, fresh)

  -- In a cache within its capacity of two entries or more, an entry that was just read is not
  -- evicted by the next Put, of whatever other key.
  pub get-put-get :
      (entries : List (K × CacheEntry V)) (k j : K) (v w : V) (version now : ℕ)
      → length entries ≤ max_entries
      → 2 ≤ max_entries
      → same k k ≡ true
      → same k j ≡ false
      → same j k ≡ false
      → (get same entries k now).1 ≡ some v
      → (get same
          (put same (get same entries k now).0 max_entries ttl_seconds j w version now)
          k
          now).1
        ≡ some v
  get-put-get entries k j v w version now few some_room own other other' hit =
      let (e, fresh, value, moved, size) = get-moves entries k v now hit in
      let (rest, shape) =
        put-second k e (erase_key same k entries) j w version now (omega (arith, size, few))
          some_room other in
      ap
        (λ (t : List (K × CacheEntry V)).
          (get same (put same t max_entries ttl_seconds j w version now) k now).1)
        moved
      ∙ ap (λ (t : List (K × CacheEntry V)). (get same t k now).1) shape
      ∙ get-second j k (entry w version now) e rest now other' own fresh
      ∙ ap (λ (x : V). some x) value
