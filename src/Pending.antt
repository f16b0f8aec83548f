-- ===== src/Pending.antt =====
-- The pending-handshake ledger of src/protocol/handshake.h and handshake.c. Each reading of the
-- store's clock is an argument `now`; a clock that cannot be read gives 2 ^ 64 - 1.
-- `slots` is the part of the array that the code walks, so `capacity` is its length. `home` says
-- which array `s->slots` points to, which is all that the code asks of the pointer.
pub mod Find
pub mod Cell
pub mod Refine
pub mod Insert
pub mod Calls
pub mod Life
pub mod Once
mod Tests
use mldsa_auth.Base.{
  Bool, List, Option, [], false, get_elem?, if◌then◌else◌, leb, length, ltb, none, not, replicate,
  set, some, true, ℕ, ◌%◌, ◌&&◌, ◌+◌, ◌-◌, ◌==◌, ◌^◌, ◌||◌, ◌∷◌,
}
use mldsa_auth.Base.Bytes.{bytes_eq}

abbrev pub handshake_pending_max : ℕ
handshake_pending_max = 256

abbrev pub handshake_pending_ext_max : ℕ
handshake_pending_ext_max = 2048

abbrev pub handshake_auth_failure_limit : ℕ
handshake_auth_failure_limit = 3

abbrev pub uint64_max : ℕ
uint64_max = 2 ^ 64 - 1

-- `pending_slot_state_t`; `expired` is only reported, never stored.
pub data SlotState : Type 0 where
  free active consumed auth_limited expired : SlotState

-- `pending_status_t`
pub data Status : Type 0 where
  ok invalid_arg not_found err_expired err_consumed auth_limit full : Status

-- `handshake_pending_entry_t`
pub record Entry : Type 0 where
  pub state : SlotState
  pub handshake_id : List ℕ
  pub th_client_auth : List ℕ
  pub deadline_ms : ℕ
  pub failure_count : ℕ

-- Where `s->slots` points: nowhere, to `s->entries`, or to the caller's array.
pub data Home : Type 0 where
  nowhere inline external : Home

-- `handshake_pending_store_t`
pub record Store : Type 0 where
  pub home : Home
  pub slots : List Entry
  pub ttl_ms : ℕ
  pub has_clock : Bool

-- An entry of zeros.
abbrev pub zero_entry : Entry
zero_entry = record {
  state = free;
  handshake_id = replicate 16 0;
  th_client_auth = replicate 32 0;
  deadline_ms = 0;
  failure_count = 0;
}

-- A store of zeros.
abbrev pub zero_store : Store
zero_store = record { home = nowhere; slots = []; ttl_ms = 0; has_clock = false }

abbrev pub is_free : SlotState → Bool
is_free free = true
is_free active = false
is_free consumed = false
is_free auth_limited = false
is_free expired = false

abbrev pub is_active : SlotState → Bool
is_active active = true
is_active free = false
is_active consumed = false
is_active auth_limited = false
is_active expired = false

abbrev pub is_consumed : SlotState → Bool
is_consumed consumed = true
is_consumed free = false
is_consumed active = false
is_consumed auth_limited = false
is_consumed expired = false

abbrev pub is_auth_limited : SlotState → Bool
is_auth_limited auth_limited = true
is_auth_limited free = false
is_auth_limited active = false
is_auth_limited consumed = false
is_auth_limited expired = false

abbrev pub in_use : Entry → Bool
in_use e = not (is_free e.state)

unfoldable pub cap_limit_for : Home → ℕ
cap_limit_for inline = handshake_pending_max
cap_limit_for nowhere = handshake_pending_ext_max
cap_limit_for external = handshake_pending_ext_max

abbrev pub points_somewhere : Home → Bool
points_somewhere nowhere = false
points_somewhere inline = true
points_somewhere external = true

unfoldable pub store_usable : Store → Bool
unfolding cap_limit_for
store_usable s =
    points_somewhere s.home
    && s.has_clock
    && leb 1 (length s.slots)
    && leb (length s.slots) (cap_limit_for s.home)
    && ltb 0 s.ttl_ms

abbrev pub entry_expired : Entry → ℕ → Bool
entry_expired e now = leb e.deadline_ms now

pub free_slot : Entry → Entry
free_slot e = zero_entry

pub tombstone : Entry → SlotState → Entry
tombstone e state = record e { state = state; th_client_auth = replicate 32 0 }

-- The loop of `find_slot`, from slot `i` on.
unfoldable pub find_loop : List Entry → List ℕ → ℕ → Bool → ℕ → Bool × ℕ
find_loop [] id i found index = (found, index)
find_loop (e ∷ es) id i found index =
    let hit = (in_use e && bytes_eq e.handshake_id id) && not found in
    find_loop es id (i + 1) (found || hit) (if hit then i else index)

unfoldable pub find_slot : Store → List ℕ → Bool × ℕ
unfolding find_loop
find_slot s id = find_loop s.slots id 0 false 0

-- `s->slots[index]`
unfoldable pub slot_at : Store → ℕ → Entry
slot_at s index = elim (get_elem? s.slots index) [ none ↦ zero_entry | some e ↦ e ]

pub put_slot : Store → ℕ → Entry → Store
put_slot s index e = record s { slots = set s.slots index e }

-- The store after it, whether the code returned PENDING_OK or not. The caller's clock is set by
-- both inits: a NULL is replaced by the default one.
unfoldable pub store_init_common : Home → ℕ → ℕ → Status × Store
unfolding cap_limit_for
store_init_common home capacity ttl_ms =
    if not (points_somewhere home)
      || ltb capacity 1
      || ltb (cap_limit_for home) capacity
      || (ttl_ms == 0)
    then (invalid_arg, zero_store)
    else (
      ok,
      record {
        home = home;
        slots = replicate capacity zero_entry;
        ttl_ms = ttl_ms;
        has_clock = true;
      },
    )

unfoldable pub handshake_pending_store_init : ℕ → ℕ → Status × Store
unfolding store_init_common
handshake_pending_store_init capacity ttl_ms = store_init_common inline capacity ttl_ms

-- The flag is `slots != NULL`.
unfoldable pub handshake_pending_store_init_ext : Bool → ℕ → ℕ → Status × Store
unfolding store_init_common
handshake_pending_store_init_ext given capacity ttl_ms =
    store_init_common (if given then external else nowhere) capacity ttl_ms

-- The store, and what is left in the caller's array (`none` if there is none to clear).
pub handshake_pending_store_wipe : Store → Store × Option (List Entry)
handshake_pending_store_wipe s = (
  zero_store,
  elim s.home [
    | external ↦ some (replicate (length s.slots) zero_entry)
    | inline ↦ none
    | nowhere ↦ none
  ],
)

pub sweep_slots : List Entry → ℕ → List Entry
unfolding free_slot
sweep_slots [] now = []
sweep_slots (e ∷ es) now =
    (if in_use e && entry_expired e now then free_slot e else e) ∷ sweep_slots es now

pub handshake_pending_sweep : Store → ℕ → Store
unfolding store_usable
handshake_pending_sweep s now =
    if not (store_usable s) then s else record s { slots = sweep_slots s.slots now }

-- The loop of `handshake_pending_insert`: the first free slot takes the entry.
pub insert_loop : List Entry → Entry → Option (List Entry)
insert_loop [] fresh = none
insert_loop (e ∷ es) fresh =
    if is_free e.state
    then some (fresh ∷ es)
    else elim (insert_loop es fresh) [ none ↦ none | some es' ↦ some (e ∷ es') ]

-- now > UINT64_MAX - ttl ? UINT64_MAX : now + ttl
pub saturating_deadline : ℕ → ℕ → ℕ
saturating_deadline now ttl_ms = if ltb (uint64_max - ttl_ms) now then uint64_max else now + ttl_ms

-- The clock is read once by the sweep and once for the deadline.
pub handshake_pending_insert : Store → List ℕ → List ℕ → ℕ → ℕ → Status × Store
handshake_pending_insert s handshake_id th_client_auth now_sweep now =
    if not (store_usable s)
    then (invalid_arg, s)
    else let swept = handshake_pending_sweep s now_sweep in
      let fresh : Entry = record {
        state = active;
        handshake_id = handshake_id;
        th_client_auth = th_client_auth;
        deadline_ms = saturating_deadline now s.ttl_ms;
        failure_count = 0;
      } in
      if (find_slot swept handshake_id).0
      then (invalid_arg, swept)
      else elim (insert_loop swept.slots fresh) [
        | none ↦ (full, swept)
        | some slots ↦ (ok, record swept { slots = slots })
      ]

-- The status, what is left in `th_client_auth_out`, and the store.
unfoldable pub handshake_pending_get_digest : Store → List ℕ → ℕ → Status × List ℕ × Store
handshake_pending_get_digest s handshake_id now =
    if not (store_usable s)
    then (invalid_arg, replicate 32 0, s)
    else let (found, index) = find_slot s handshake_id in
      let e = slot_at s index in
      if not found
      then (not_found, replicate 32 0, s)
      else if entry_expired e now
      then (err_expired, replicate 32 0, put_slot s index (free_slot e))
      else if is_consumed e.state
      then (err_consumed, replicate 32 0, s)
      else if is_auth_limited e.state
      then (auth_limit, replicate 32 0, s)
      else (ok, e.th_client_auth, s)

-- The status, `*state_out` and `*failure_count_out`.
pub handshake_pending_inspect : Store → List ℕ → ℕ → Status × SlotState × ℕ
handshake_pending_inspect s handshake_id now =
    if not (store_usable s)
    then (invalid_arg, free, 0)
    else let (found, index) = find_slot s handshake_id in
      let e = slot_at s index in
      if not found
      then (not_found, free, 0)
      else if entry_expired e now
      then (err_expired, expired, e.failure_count)
      else if is_consumed e.state
      then (err_consumed, e.state, e.failure_count)
      else if is_auth_limited e.state
      then (auth_limit, e.state, e.failure_count)
      else (ok, e.state, e.failure_count)

pub handshake_pending_record_failure : Store → List ℕ → ℕ → Status × Store
handshake_pending_record_failure s handshake_id now =
    if not (store_usable s)
    then (invalid_arg, s)
    else let (found, index) = find_slot s handshake_id in
      let e = slot_at s index in
      let counted : Entry = record e { failure_count = (e.failure_count + 1) % 256 } in
      if not found
      then (not_found, s)
      else if entry_expired e now
      then (err_expired, put_slot s index (free_slot e))
      else if is_consumed e.state
      then (err_consumed, s)
      else if is_auth_limited e.state
      then (auth_limit, s)
      else if leb handshake_auth_failure_limit counted.failure_count
      then (auth_limit, put_slot s index (tombstone counted auth_limited))
      else (ok, put_slot s index counted)

unfoldable pub handshake_pending_consume_success : Store → List ℕ → ℕ → Status × Store
handshake_pending_consume_success s handshake_id now =
    if not (store_usable s)
    then (invalid_arg, s)
    else let (found, index) = find_slot s handshake_id in
      let e = slot_at s index in
      if not found
      then (not_found, s)
      else if entry_expired e now
      then (err_expired, put_slot s index (free_slot e))
      else if is_consumed e.state
      then (err_consumed, s)
      else if is_auth_limited e.state
      then (auth_limit, s)
      else (ok, put_slot s index (tombstone e consumed))

pub handshake_pending_cancel : Store → List ℕ → ℕ → Status × Store
handshake_pending_cancel s handshake_id now =
    if not (store_usable s)
    then (invalid_arg, s)
    else let (found, index) = find_slot s handshake_id in
      let e = slot_at s index in
      if not found
      then (not_found, s)
      else if entry_expired e now
      then (err_expired, put_slot s index (free_slot e))
      else if is_consumed e.state
      then (err_consumed, s)
      else if is_auth_limited e.state
      then (auth_limit, s)
      else (ok, put_slot s index (free_slot e))

pub count_loop : List Entry → ℕ → ℕ → ℕ
count_loop [] now n = n
count_loop (e ∷ es) now n =
    count_loop es now (if is_active e.state && not (entry_expired e now) then n + 1 else n)

pub handshake_pending_active_count : Store → ℕ → ℕ
handshake_pending_active_count s now = if not (store_usable s) then 0 else count_loop s.slots now 0
