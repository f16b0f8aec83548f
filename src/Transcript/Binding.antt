-- ===== src/Transcript/Binding.antt =====
-- What the three hashes of src/protocol/transcript.c cover, and that they cover it unambiguously.
use mldsa_auth.Base.{
  List, [], ap, append_assoc, arith, get_elem?, refl, some, some_inj, take, ℕ, ◌++◌, ◌∷◌, ◌≡◌, ◌≢◌,
}
use mldsa_auth.Base.Bytes.{append_inj}
use mldsa_auth.Transcript.{
  IsSha256, Sha256, codes, hash_label_and_two_buffers, transcript_handshake_id,
  transcript_hash_client_auth, transcript_hash_server_auth, transcript_label_client_auth,
  transcript_label_handshake_id, transcript_label_server_auth,
}
use mldsa_auth.Wire.{ClientHello, decode_client_hello}
use mldsa_auth.Wire.Prefix.{decode_client_hello_prefix}

-- label || 0x00 || a || b
pub transcript_input : List ℕ → List ℕ → List ℕ → List ℕ
transcript_input label a b = label ++ ((0x00 ∷ []) ++ (a ++ b))

hash_label_and_two_buffers_lem :
    (sha : Sha256) (digest : List ℕ → List ℕ) (label a b : List ℕ)
    → IsSha256 sha digest
    → hash_label_and_two_buffers sha label a b ≡ some (digest (transcript_input label a b))
unfolding hash_label_and_two_buffers transcript_input
hash_label_and_two_buffers_lem sha digest label a b law =
    let (s₀, e₀, a₀) = law.init_ok in
    let (s₁, e₁, a₁) = law.update_ok s₀ [] label a₀ in
    let (s₂, e₂, a₂) = law.update_ok s₁ label (0x00 ∷ []) a₁ in
    let (s₃, e₃, a₃) = law.update_ok s₂ (label ++ 0x00 ∷ []) a a₂ in
    let (s₄, e₄, a₄) = law.update_ok s₃ ((label ++ 0x00 ∷ []) ++ a) b a₃ in
    rw (e₀, e₁, e₂, e₃, e₄, law.final_ok s₄ _ a₄) (ap (λ x. some (digest x)) (simp append_assoc))

-- Each of the three functions is total, and is the digest of its own label, a zero byte, the
-- ClientHello and the ServerHello bytes, in that order; the handshake id is the first 16 bytes.
pub transcript_hashes :
    (sha : Sha256) (digest : List ℕ → List ℕ) (ch sh : List ℕ)
    → IsSha256 sha digest
    → (transcript_hash_server_auth sha ch sh
        ≡ some (digest (codes "mldsa-auth/v2/server-auth" ++ ((0x00 ∷ []) ++ (ch ++ sh)))))
      × (transcript_hash_client_auth sha ch sh
          ≡ some (digest (codes "mldsa-auth/v2/client-auth" ++ ((0x00 ∷ []) ++ (ch ++ sh)))))
      × (transcript_handshake_id sha ch sh
          ≡ some (
              take 16 (digest (codes "mldsa-auth/v2/handshake-id" ++ ((0x00 ∷ []) ++ (ch ++ sh))))))
unfolding transcript_hash_server_auth transcript_hash_client_auth transcript_handshake_id
    transcript_input
transcript_hashes sha digest ch sh law = (
  hash_label_and_two_buffers_lem sha digest transcript_label_server_auth ch sh law,
  hash_label_and_two_buffers_lem sha digest transcript_label_client_auth ch sh law,
  rw (hash_label_and_two_buffers_lem sha digest transcript_label_handshake_id ch sh law),
)

-- The labels of the three hashes.
pub data Label : Type 0 where
  server_auth client_auth handshake_id : Label

pub label_bytes : Label → List ℕ
label_bytes server_auth = transcript_label_server_auth
label_bytes client_auth = transcript_label_client_auth
label_bytes handshake_id = transcript_label_handshake_id

tail_inj : {x : ℕ} (us vs : List ℕ) → (x ∷ []) ++ us ≡ (x ∷ []) ++ vs → us ≡ vs
tail_inj us vs h = cc

-- The labels differ in their fifteenth letter.
letter_apart : {a b : ℕ} → some a ≡ some b → a ≢ b → ⊥
letter_apart h n = n (some_inj h)

-- No label with its separator is the beginning of another.
label_apart :
    (l l' : Label) (us vs : List ℕ)
    → label_bytes l ++ ((0x00 ∷ []) ++ us) ≡ label_bytes l' ++ ((0x00 ∷ []) ++ vs)
    → (l ≡ l') × (us ≡ vs)
unfolding label_bytes
label_apart server_auth server_auth us vs h = (
  refl,
  tail_inj us vs
      (append_inj transcript_label_server_auth transcript_label_server_auth _ _ refl h).1,
)
label_apart server_auth client_auth us vs h =
    absurd (letter_apart (ap (λ l. get_elem? l 14) h) (omega arith))
label_apart server_auth handshake_id us vs h =
    absurd (letter_apart (ap (λ l. get_elem? l 14) h) (omega arith))
label_apart client_auth server_auth us vs h =
    absurd (letter_apart (ap (λ l. get_elem? l 14) h) (omega arith))
label_apart client_auth client_auth us vs h = (
  refl,
  tail_inj us vs
      (append_inj transcript_label_client_auth transcript_label_client_auth _ _ refl h).1,
)
label_apart client_auth handshake_id us vs h =
    absurd (letter_apart (ap (λ l. get_elem? l 14) h) (omega arith))
label_apart handshake_id server_auth us vs h =
    absurd (letter_apart (ap (λ l. get_elem? l 14) h) (omega arith))
label_apart handshake_id client_auth us vs h =
    absurd (letter_apart (ap (λ l. get_elem? l 14) h) (omega arith))
label_apart handshake_id handshake_id us vs h = (
  refl,
  tail_inj us vs
      (append_inj transcript_label_handshake_id transcript_label_handshake_id _ _ refl h).1,
)

-- The hashed bytes determine what was hashed: with well-formed ClientHellos, two equal inputs have
-- the same label, the same ClientHello and the same ServerHello bytes.
pub transcript_input_injective :
    (l l' : Label) (ch ch' sh sh' : List ℕ) (m m' : ClientHello) (n n' : ℕ)
    → decode_client_hello ch ≡ some (m, n)
    → decode_client_hello ch' ≡ some (m', n')
    → transcript_input (label_bytes l) ch sh ≡ transcript_input (label_bytes l') ch' sh'
    → (l ≡ l') × (ch ≡ ch') × (sh ≡ sh')
unfolding transcript_input
transcript_input_injective l l' ch ch' sh sh' m m' n n' e e' h =
    let (same, tails) = label_apart l l' (ch ++ sh) (ch' ++ sh') h in
    let (a, b) = decode_client_hello_prefix ch ch' sh sh' m m' n n' e e' tails in (same, a, b)
