-- ===== src/Pending/Cell.antt =====
-- The ledger of src/protocol/handshake.c as its callers see it: for each handshake id an entry or
-- none, and what each operation does to that entry alone.
use mldsa_auth.Base.{
  List, Option, arith, if◌then◌else◌, inl, inr, leb, none, replicate, some, true, ℕ, ◌%◌, ◌+◌, ◌≡◌,
}
use mldsa_auth.Pending.{
  Entry, Status, Store, auth_limit, auth_limited, consumed, entry_expired, err_consumed,
  err_expired, free_slot, handshake_auth_failure_limit, handshake_pending_cancel,
  handshake_pending_consume_success, handshake_pending_get_digest, handshake_pending_record_failure,
  is_auth_limited, is_consumed, not_found, ok, store_usable, tombstone, zero_entry,
}
use mldsa_auth.Pending.Find.{
  find_slot-Found, held, update_first, update_first-none, update_first_same,
}

pub data Op : Type 0 where
  get_digest record_failure consume_success cancel : Op

-- The code's operation, its status and the store that it leaves.
unfoldable pub apply : Op → Store → List ℕ → ℕ → Status × Store
apply get_digest s id now = let r = handshake_pending_get_digest s id now in (r.0, r.2)
apply record_failure s id now = handshake_pending_record_failure s id now
apply consume_success s id now = handshake_pending_consume_success s id now
apply cancel s id now = handshake_pending_cancel s id now

-- What an operation does to a live entry.
unfoldable pub live : Op → Entry → Status × Option Entry
live get_digest e = (ok, some e)
live record_failure e =
    let n = (e.failure_count + 1) % 256 in
    if leb handshake_auth_failure_limit n
    then (
      auth_limit,
      some (record e { state = auth_limited; th_client_auth = replicate 32 0; failure_count = n }),
    )
    else (ok, some (record e { failure_count = n }))
live consume_success e = (ok, some (record e { state = consumed; th_client_auth = replicate 32 0 }))
live cancel e = (ok, none)

-- Expiry comes first and evicts; a tombstone stays and answers for itself.
unfoldable pub cell : Op → Option Entry → ℕ → Status × Option Entry
cell op none now = (not_found, none)
cell op (some e) now =
    if entry_expired e now
    then (err_expired, none)
    else if is_consumed e.state
    then (err_consumed, some e)
    else if is_auth_limited e.state
    then (auth_limit, some e)
    else live op e

-- What is written where the entry was.
abbrev pub or_zero : Option Entry → Entry
or_zero none = zero_entry
or_zero (some e) = e

unfoldable pub write : Store → List ℕ → Status × Option Entry → Status × Store
write s id (st, c) = (st, record s { slots = update_first s.slots id (or_zero c) })

-- Scanning for the slot and writing through its index does to the first entry under the id what the
-- specification does to the entry.
pub apply-eq-write :
    (op : Op) (s : Store) (id : List ℕ) (now : ℕ)
    → store_usable s ≡ true
    → apply op s id now ≡ write s id (cell op (held s.slots id) now)
unfolding apply cell live write handshake_pending_get_digest handshake_pending_record_failure
    handshake_pending_consume_success handshake_pending_cancel free_slot tombstone
apply-eq-write get_digest s id now u = elim (find_slot-Found s id) [
  | inl (h, f) ↦ ground (arith, update_first-none s.slots id zero_entry h)
  | inr (e, h, f, at, w) ↦ ground (arith, update_first_same s.slots id e h, w zero_entry)
]
apply-eq-write record_failure s id now u = elim (find_slot-Found s id) [
  | inl (h, f) ↦ ground (arith, update_first-none s.slots id zero_entry h)
  | inr (e, h, f, at, w) ↦
      let counted : Entry = record e { failure_count = (e.failure_count + 1) % 256 } in
      ground (
        arith,
        update_first_same s.slots id e h,
        w zero_entry,
        w (tombstone counted auth_limited),
        w counted,
      )
]
apply-eq-write consume_success s id now u = elim (find_slot-Found s id) [
  | inl (h, f) ↦ ground (arith, update_first-none s.slots id zero_entry h)
  | inr (e, h, f, at, w) ↦
      ground (arith, update_first_same s.slots id e h, w zero_entry, w (tombstone e consumed))
]
apply-eq-write cancel s id now u = elim (find_slot-Found s id) [
  | inl (h, f) ↦ ground (arith, update_first-none s.slots id zero_entry h)
  | inr (e, h, f, at, w) ↦ ground (arith, update_first_same s.slots id e h, w zero_entry)
]
