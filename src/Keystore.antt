-- ===== src/Keystore.antt =====
-- src/protocol/keystore.c: the pinned public keys. An id is the list of its bytes.
pub mod Pins
mod Tests
use mldsa_auth.Base.{
  Bool, List, Option, [], false, if◌then◌else◌, leb, length, none, not, replicate, some, take, true,
  ℕ, ◌%◌, ◌&&◌, ◌+◌, ◌==◌, ◌||◌, ◌∷◌,
}
use mldsa_auth.Base.Bytes.{blit, bytes_eq, zeros}
use mldsa_auth.Crypto.Mldsa.{mldsa_public_key_bytes}
use mldsa_auth.Wire.{wire_id_max_len, wire_id_min_len}

abbrev pub keystore_max_entries : ℕ
keystore_max_entries = 32

-- `keystore_status_t`
pub data Status : Type 0 where
  ok ok_already_present invalid_arg not_found key_mismatch full : Status

abbrev pub keystore_ok : Status → Bool
keystore_ok ok = true
keystore_ok ok_already_present = false
keystore_ok invalid_arg = false
keystore_ok not_found = false
keystore_ok key_mismatch = false
keystore_ok full = false

-- `keystore_entry_t`; `id_len` 0 is a free slot.
pub record Entry : Type 0 where
  pub id : List ℕ
  pub id_len : ℕ
  pub public_key : List ℕ

-- `keystore_t`
pub record Keystore : Type 0 where
  pub entries : List Entry
  pub count : ℕ

abbrev free_entry : Entry
free_entry = record {
  id = zeros wire_id_max_len;
  id_len = 0;
  public_key = replicate mldsa_public_key_bytes 0;
}

unfoldable pub keystore_init : Keystore
keystore_init = record { entries = replicate keystore_max_entries free_entry; count = 0 }

unfoldable pub keystore_wipe : Keystore → Keystore
keystore_wipe ks = record { entries = replicate keystore_max_entries free_entry; count = 0 }

pub entry_matches : Entry → List ℕ → Bool
entry_matches e id =
    if e.id_len == 0 || not (e.id_len == length id)
    then false
    else bytes_eq (take (length id) e.id) id

-- The public key of the first entry that matches, from the slot on.
pub find_entry : List Entry → List ℕ → Option (List ℕ)
unfolding entry_matches
find_entry [] id = none
find_entry (e ∷ es) id = if entry_matches e id then some e.public_key else find_entry es id

-- The slot with the id and its key in it.
abbrev pub entry_of : Entry → List ℕ → List ℕ → Entry
entry_of e id public_key = record {
  id = blit e.id id;
  id_len = length id % 256;
  public_key = public_key;
}

-- The first free slot takes the id and its key.
pub add_loop : List Entry → List ℕ → List ℕ → Option (List Entry)
add_loop [] id public_key = none
add_loop (e ∷ es) id public_key =
    if e.id_len == 0
    then some (entry_of e id public_key ∷ es)
    else elim (add_loop es id public_key) [ none ↦ none | some es' ↦ some (e ∷ es') ]

abbrev pub id_fits : List ℕ → Bool
id_fits id = leb wire_id_min_len (length id) && leb (length id) wire_id_max_len

pub keystore_add : Keystore → List ℕ → List ℕ → Status × Keystore
unfolding find_entry add_loop
keystore_add ks id public_key =
    if not (id_fits id) then (invalid_arg, ks) else elim (find_entry ks.entries id) [
      | some existing ↦
          if bytes_eq existing public_key then (ok_already_present, ks) else (key_mismatch, ks)
      | none ↦
          if leb keystore_max_entries ks.count
          then (full, ks)
          else elim (add_loop ks.entries id public_key) [
            | none ↦ (full, ks)
            | some entries ↦ (ok, record { entries = entries; count = ks.count + 1 })
          ]
    ]

-- The status and `*public_key_out`.
pub keystore_lookup : Keystore → List ℕ → Status × Option (List ℕ)
unfolding find_entry
keystore_lookup ks id =
    if not (id_fits id)
    then (invalid_arg, none)
    else elim (find_entry ks.entries id) [ none ↦ (not_found, none) | some pk ↦ (ok, some pk) ]

unfoldable pub keystore_count : Keystore → ℕ
keystore_count ks = ks.count
