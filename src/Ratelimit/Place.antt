-- ===== src/Ratelimit/Place.antt =====
-- `find_or_add` of apps/authd/ratelimit.c, and writes to the entry that it gives, over the map from
-- keys to entries.
use mldsa_auth.Base.{
  Bool-cases, List, Option, Option-cases, ap, arith, false, inl, inr, length, none, refl, set, some,
  sym, true, ℕ, ◌%◌, ◌+◌, ◌<◌, ◌==◌, ◌≡◌, ◌≢◌, ◌≤◌,
}
use mldsa_auth.Base.Bytes.{bytes_apart, bytes_eq, eq_of_bytes_eq}
use mldsa_auth.Ratelimit.{
  Ratelimit, RatelimitEntry, bucket_of, cap_milli, entry_at, find_idx, find_or_add, fresh_entry,
  put_entry, ratelimit_entries, reclaimable,
}
use mldsa_auth.Ratelimit.Insert.{find_others, find_own, fresh_same_key, Holds-own, insert-IsTable}
use mldsa_auth.Ratelimit.Probe.{Holds, Live, Roomed, Rounds, has_room, no_room, room_rounds-Roomed}
use mldsa_auth.Ratelimit.Table.{IsTable, find_key, Holds-of_find_key}
use mldsa_auth.Ratelimit.Writes.{entry_at-set_ne, entry_at-set_self}

-- The connections that an entry counts, if there is one.
abbrev pub conns_at : List RatelimitEntry → Option ℕ → ℕ
conns_at es none = 0
conns_at es (some i) = (entry_at es i).conns

-- A bound on the numbers of every entry.
abbrev pub Within : ℕ → ℕ → RatelimitEntry → Type 0
Within cap most e = (e.tokens_milli ≤ cap) × (e.conns ≤ most)

abbrev pub AllWithin : ℕ → ℕ → List RatelimitEntry → Type 0
AllWithin cap most es = (i : ℕ) → Within cap most (entry_at es i)

pub set-AllWithin :
    (cap most : ℕ) (es : List RatelimitEntry) (i : ℕ) (v : RatelimitEntry)
    → i < length es
    → Within cap most v
    → AllWithin cap most es
    → AllWithin cap most (set es i v)
set-AllWithin cap most es i v l w all j = elim (Bool-cases (i == j)) [
  | inl e ↦ let same : i ≡ j = ground (arith, e) in rw (← same, entry_at-set_self es i v l) w
  | inr e ↦ let apart : i ≢ j = ground (arith, e) in rw (entry_at-set_ne es i j v apart) (all j)
]

-- An entry that is taken and was used counts no connection.
reclaimable_idle :
    (r : Ratelimit) (e : RatelimitEntry) (now_ms : ℕ)
    → reclaimable r e now_ms ≡ true
    → (e.key_len == 0) ≡ false
    → e.conns ≡ 0
unfolding reclaimable
reclaimable_idle r e now_ms h u = ground (arith, h, u)

live_used :
    (r : Ratelimit) (e : RatelimitEntry) (now_ms : ℕ)
    → reclaimable r e now_ms ≡ false
    → (e.key_len == 0) ≡ false
unfolding reclaimable
live_used r e now_ms h = ground (arith, h)

pub conns_at-set_ne :
    (es : List RatelimitEntry) (i : ℕ) (v : RatelimitEntry) (o : Option ℕ)
    → o ≢ some i
    → conns_at (set es i v) o ≡ conns_at es o
conns_at-set_ne es i v none h = refl
conns_at-set_ne es i v (some j) h =
    ap (λ (e : RatelimitEntry). e.conns) (entry_at-set_ne es i j v (λ q. h (ap some (sym q))))

module _ (shorthash : List ℕ → List ℕ → List ℕ) where
  -- The connections of a key.
  abbrev pub key_conns : Ratelimit → List ℕ → ℕ
  key_conns r key = conns_at r.e (find_key (bucket_of shorthash r) r.e key)

  -- What `find_or_add` gives: no entry, and the limiter as it was, if no entry may be taken; or the
  -- entry of the key, in a table that counts the same connections of every key.
  pub data Placed (r : Ratelimit) (key : List ℕ) (now_ms : ℕ) : Option ℕ × Ratelimit → Type 0 where
    no_place :
        find_key (bucket_of shorthash r) r.e key ≡ none
        → Rounds (Live r now_ms) (bucket_of shorthash r key) 0 ratelimit_entries
        → Placed r key now_ms (none, r)
    placed :
        (i : ℕ) (es : List RatelimitEntry)
        → IsTable (bucket_of shorthash r) es
        → Holds es key i
        → AllWithin (cap_milli r) r.max_conns es
        → ((k : List ℕ) → conns_at es (find_key (bucket_of shorthash r) es k) ≡ key_conns r k)
        → Placed r key now_ms (some i, record r { e = es })

  -- Over the entry of round `m`, which may be taken, no connection is lost and none is gained.
  count_fresh :
      (r : Ratelimit) (key k : List ℕ) (now_ms m : ℕ)
      → (t : IsTable (bucket_of shorthash r) r.e)
      → (gone : find_key (bucket_of shorthash r) r.e key ≡ none) → (l : m < ratelimit_entries)
      → (used : Rounds
          (λ i. ((entry_at r.e i).key_len == 0) ≡ false)
          (bucket_of shorthash r key)
          0
          m)
      → (not_free : (length key == 0) ≡ false)
      → reclaimable r (entry_at r.e ((bucket_of shorthash r key + m) % ratelimit_entries)) now_ms
        ≡ true
      → key_conns
          (put_entry r
            ((bucket_of shorthash r key + m) % ratelimit_entries)
            (fresh_entry r key now_ms))
          k
        ≡ key_conns r k
  count_fresh r key k now_ms m t gone l used not_free taken =
      let b = bucket_of shorthash r in
      let i = (b key + m) % ratelimit_entries in
      let v = fresh_entry r key now_ms in
      let own = fresh_same_key r key now_ms in
      let in_table : i < length r.e = omega (arith, t.size) in
      elim (Bool-cases (bytes_eq k key)) [
        | inl q ↦
            let same = eq_of_bytes_eq k key q in
            rw (same, find_own b r.e key m v t gone l used not_free own, gone)
              (ap (λ (e : RatelimitEntry). e.conns) (entry_at-set_self r.e i v in_table))
        | inr q ↦
            let other : k ≢ key = bytes_apart k key q in
            elim (find_others b r.e key m v t gone l used not_free own k other) [
              | inl (same, apart) ↦ rw same (conns_at-set_ne r.e i v (find_key b r.e k) apart)
              | inr (lost, was) ↦
                  let idle =
                    reclaimable_idle r (entry_at r.e i) now_ms taken
                      (Holds-of_find_key b r.e k i was).1 in
                  rw (lost, was) (sym idle)
            ]
      ]

  place_room :
      (r : Ratelimit) (key : List ℕ) (now_ms : ℕ)
      → IsTable (bucket_of shorthash r) r.e
      → AllWithin (cap_milli r) r.max_conns r.e
      → (length key == 0) ≡ false
      → find_key (bucket_of shorthash r) r.e key ≡ none
      → (o : Option ℕ) → Roomed r now_ms (bucket_of shorthash r key) 0 ratelimit_entries o
      → Placed r key now_ms (elim o [
        | some i ↦ (some i, put_entry r i (fresh_entry r key now_ms))
        | none ↦ (none, r)
      ])
  place_room r key now_ms t w k gone o (no_room all) = no_place gone all
  place_room r key now_ms t w k gone o (has_room m l taken before) =
      let b = bucket_of shorthash r in
      let i = (b key + m) % ratelimit_entries in
      let v = fresh_entry r key now_ms in
      let own = fresh_same_key r key now_ms in
      let used : Rounds (λ j. ((entry_at r.e j).key_len == 0) ≡ false) (b key) 0 m = λ n lo hi.
        live_used r (entry_at r.e ((b key + n) % ratelimit_entries)) now_ms (before n lo hi) in
      placed i (set r.e i v) (insert-IsTable b r.e key m v t gone l used k own)
        (Holds-own b r.e key m v t gone l used k own)
        (set-AllWithin (cap_milli r) r.max_conns r.e i v (omega (arith, t.size))
          (omega arith, omega arith) w)
        (λ j. count_fresh r key j now_ms m t gone l used k taken)

  pub find_or_add-Placed :
      (r : Ratelimit) (key : List ℕ) (now_ms : ℕ)
      → IsTable (bucket_of shorthash r) r.e
      → AllWithin (cap_milli r) r.max_conns r.e
      → (length key == 0) ≡ false
      → Placed r key now_ms (find_or_add shorthash r key now_ms)
  unfolding find_or_add find_idx
  find_or_add-Placed r key now_ms t w k =
      elim (Option-cases (find_key (bucket_of shorthash r) r.e key)) [
        | inr (i, e) ↦
            rw (find_or_add, find_idx, e)
              (placed i r.e t (Holds-of_find_key (bucket_of shorthash r) r.e key i e) w (λ k. refl))
        | inl e ↦
            rw (find_or_add, find_idx, e)
              (place_room r key now_ms t w k e _
                (room_rounds-Roomed r now_ms (bucket_of shorthash r key) 0 _ _ (omega arith)))
      ]
