-- ===== src/Keystore/Tests.antt =====
-- Tests of src/protocol/keystore.c.
use mldsa_auth.Base.{List, [], drop, refl, some, take, ℕ, ◌∷◌, ◌≡◌}
use mldsa_auth.Base.Bytes.{bytes_eq}
use mldsa_auth.Keystore.{
  Keystore, add_loop, entry_matches, find_entry, key_mismatch, keystore_add, keystore_lookup, ok,
}
use mldsa_auth.Keystore.Pins.{Added, add_all, keystore_add-Added, pin_kept}

abbrev alice : List ℕ
alice = 65 ∷ []

abbrev bob : List ℕ
bob = 66 ∷ 67 ∷ []

abbrev small : Keystore
small = record {
  entries =
      record { id = 65 ∷ 0 ∷ 0 ∷ []; id_len = 1; public_key = 1 ∷ [] }
      ∷ record { id = 0 ∷ 0 ∷ 0 ∷ []; id_len = 0; public_key = 0 ∷ [] }
      ∷ [];
  count = 1;
}

alice_pinned : keystore_lookup small alice ≡ (ok, some (1 ∷ []))
unfolding keystore_lookup find_entry entry_matches take bytes_eq
alice_pinned = refl

bob_added : (keystore_add small bob (2 ∷ [])).0 ≡ ok
unfolding keystore_add find_entry add_loop entry_matches take drop bytes_eq
bob_added = refl

alice_kept : (keystore_add small alice (2 ∷ [])).0 ≡ key_mismatch
unfolding keystore_add find_entry add_loop entry_matches take drop bytes_eq
alice_kept = refl

keystore_add-Added_example : Added small bob (2 ∷ []) (keystore_add small bob (2 ∷ []))
keystore_add-Added_example = keystore_add-Added small bob (2 ∷ [])

pin_kept_example :
    keystore_lookup (add_all small ((bob, 2 ∷ []) ∷ (alice, 3 ∷ []) ∷ [])) alice
    ≡ (ok, some (1 ∷ []))
pin_kept_example = pin_kept small alice (1 ∷ []) ((bob, 2 ∷ []) ∷ (alice, 3 ∷ []) ∷ []) alice_pinned
