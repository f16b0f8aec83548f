-- ===== src/Wire/Reads.antt =====
-- What the decoders of src/protocol/transcript.c accept: one buffer for each message.
use mldsa_auth.Base.{
  List, append-nil, arith, bind_elim, drop, guard_elim, leb, leb→le, length, length-drop,
  length-replicate, length-take, nil_of_length, some, some_inj, subst, take, take-append-drop, true,
  ℕ, ◌++◌, ◌+◌, ◌==◌, ◌∷◌, ◌≡◌, ◌≤◌,
}
use mldsa_auth.Base.Bytes.{
  AreBytes, AreBytes-append_right, AreBytes-drop, blit, length-blit, take-blit, zeros,
}
use mldsa_auth.Wire.{
  ClientAuth, ClientHello, ServerHello, decode_client_auth, decode_client_hello,
  decode_server_hello, id_len_ok, mldsa_signature_max_bytes, msg_type_client_auth,
  msg_type_client_hello, msg_type_server_hello, next_field, next_u16, next_u8, sig_len_ok,
  wire_handshake_id_len, wire_id_max_len,
}
use mldsa_auth.Wire.Fields.{next_field_inv, next_u16_inv, next_u8_inv}
use mldsa_auth.Wire.Layout.{fixed, id_len_le, server_rest, sig_len_le, signed}
use mldsa_auth.Wire.Sizes.{IsClean, IsClientAuth, IsClientHello, IsServerHello}

-- Four fixed fields are the whole of what they were cut from, but for what is left behind them.
fields_of_drops :
    (i j k l : ℕ) (r : List ℕ)
    → let r₁ = drop i r in
      let r₂ = drop j r₁ in
      let r₃ = drop k r₂ in
      i + j + k + l ≤ length r
      → (r ≡ take i r ++ (take j r₁ ++ (take k r₂ ++ (take l r₃ ++ drop l r₃))))
        × (length (take i r) ≡ i)
        × (length (take j r₁) ≡ j)
        × (length (take k r₂) ≡ k)
        × (length (take l r₃) ≡ l)
fields_of_drops i j k l r h =
    let r₁ = drop i r in
    let r₂ = drop j r₁ in
    let r₃ = drop k r₂ in
    (
      rw (
        take-append-drop l r₃,
        take-append-drop k r₂,
        take-append-drop j r₁,
        take-append-drop i r,
      ),
      omega (arith, length-take i r),
      omega (arith, length-take j r₁, length-drop i r),
      omega (arith, length-take k r₂, length-drop j r₁, length-drop i r),
      omega (arith, length-take l r₃, length-drop k r₂, length-drop j r₁, length-drop i r),
    )

-- What a successful `decode_client_hello` has read.
pub record ReadsClientHello (buf : List ℕ) (r : ClientHello × ℕ) : Type 0 where
  pub bytes :
      buf
      ≡ msg_type_client_hello
        ∷ r.0.id_len
        ∷ (take r.0.id_len r.0.id ++ fixed r.0.ephemeral_pub r.0.mlkem_ek r.0.session_id r.0.nonce)
  pub id_fits : id_len_ok r.0.id_len ≡ true
  pub sized : IsClientHello r.0
  pub clean : IsClean r.0.id r.0.id_len
  pub whole : r.1 ≡ length buf

-- What an id buffer holds after `memset` and `memcpy`.
IsClean-blit :
    (n k : ℕ) (id : List ℕ)
    → length id ≡ n
    → n ≤ k
    → (length (blit (zeros k) id) ≡ k)
      × (take n (blit (zeros k) id) ≡ id)
      × IsClean (blit (zeros k) id) n
IsClean-blit n k id h le =
    let len : length (blit (zeros k) id) ≡ k =
      omega (arith, length-blit (zeros k) id, length-replicate {A = ℕ} k 0) in
    (len, take-blit n (zeros k) id h, record { tail = rw (len, take-blit n (zeros k) id h) })

pub decode_client_hello_inv :
    (buf : List ℕ) (m : ClientHello) (n : ℕ)
    → decode_client_hello buf ≡ some (m, n)
    → ReadsClientHello buf (m, n)
unfolding decode_client_hello
decode_client_hello_inv buf m n e = bind_elim (next_u8 buf) _ e λ p₀ e₀ k₀.
    guard_elim (p₀.0 == msg_type_client_hello) _ k₀ λ t₀ k₁.
      bind_elim (next_u8 p₀.1) _ k₁ λ p₁ e₁ k₂. guard_elim (id_len_ok p₁.0) _ k₂ λ t₁ k₃.
        bind_elim (next_field p₁.0 p₁.1) _ k₃ λ p₂ e₂ k₄.
          guard_elim (leb 1264 (length p₂.1)) _ k₄ λ t₂ k₅.
            guard_elim (length (drop 32 (drop 16 (drop 1184 (drop 32 p₂.1)))) == 0) _ k₅ λ t₃ k₆.
              let b₀ = next_u8_inv buf p₀.0 p₀.1 e₀ in
              let b₁ = next_u8_inv p₀.1 p₁.0 p₁.1 e₁ in
              let (b₂, l₂) = next_field_inv p₁.0 p₁.1 p₂.0 p₂.1 e₂ in
              let (b₃, l₃, l₄, l₅, l₆) =
                fields_of_drops 32 1184 16 32 p₂.1 (leb→le 1264 (length p₂.1) t₂) in
              let (c₀, c₁, c₂) = IsClean-blit p₁.0 wire_id_max_len p₂.0 l₂ (id_len_le p₁.0 t₁) in
              let z = nil_of_length (drop 32 (drop 16 (drop 1184 (drop 32 p₂.1)))) in
              subst (ReadsClientHello buf) (some_inj k₆) (record {
                bytes = ground (
                  arith,
                  b₀,
                  b₁,
                  b₂,
                  b₃,
                  z,
                  append-nil (take 32 (drop 16 (drop 1184 (drop 32 p₂.1)))),
                  c₁,
                );
                id_fits = t₁;
                sized = record {
                  id_size = c₀;
                  ephemeral_pub_size = l₃;
                  mlkem_ek_size = l₄;
                  session_id_size = l₅;
                  nonce_size = l₆;
                };
                clean = c₂;
                whole = ground arith;
              })

-- What a successful `decode_client_auth` has read.
pub record ReadsClientAuth (buf : List ℕ) (r : ClientAuth × ℕ) : Type 0 where
  pub bytes :
      buf
      ≡ msg_type_client_auth ∷ (r.0.handshake_id ++ signed r.0.sig_len (take r.0.sig_len r.0.sig))
  pub sig_fits : sig_len_ok r.0.sig_len ≡ true
  pub sized : IsClientAuth r.0
  pub sig_clean : IsClean r.0.sig r.0.sig_len
  pub whole : r.1 ≡ length buf

pub decode_client_auth_inv :
    (buf : List ℕ) (m : ClientAuth) (n : ℕ)
    → AreBytes buf
    → decode_client_auth buf ≡ some (m, n)
    → ReadsClientAuth buf (m, n)
unfolding decode_client_auth
decode_client_auth_inv buf m n w e = bind_elim (next_u8 buf) _ e λ p₀ e₀ k₀.
    guard_elim (p₀.0 == msg_type_client_auth) _ k₀ λ t₀ k₁.
      bind_elim (next_field wire_handshake_id_len p₀.1) _ k₁ λ p₁ e₁ k₂.
        bind_elim (next_u16 p₁.1) _ k₂ λ p₂ e₂ k₃. guard_elim (sig_len_ok p₂.0) _ k₃ λ t₁ k₄.
          bind_elim (next_field p₂.0 p₂.1) _ k₄ λ p₃ e₃ k₅.
            guard_elim (length p₃.1 == 0) _ k₅ λ t₂ k₆.
              let b₀ : buf ≡ p₀.0 ∷ p₀.1 = next_u8_inv buf p₀.0 p₀.1 e₀ in
              let w₀ : AreBytes (p₀.0 ∷ p₀.1) = rw b₀ at w in
              let (b₁, l₁) = next_field_inv wire_handshake_id_len p₀.1 p₁.0 p₁.1 e₁ in
              let w₁ : AreBytes (p₁.0 ++ p₁.1) = rw b₁ at w₀.1 in
              let b₂ = next_u16_inv p₁.1 p₂.0 p₂.1 (AreBytes-append_right p₁.0 p₁.1 w₁) e₂ in
              let (b₃, l₃) = next_field_inv p₂.0 p₂.1 p₃.0 p₃.1 e₃ in
              let z = nil_of_length p₃.1 in
              let (d₀, d₁, d₂) =
                IsClean-blit p₂.0 mldsa_signature_max_bytes p₃.0 l₃ (sig_len_le p₂.0 t₁) in
              subst (ReadsClientAuth buf) (some_inj k₆) (record {
                bytes = ground (arith, b₀, b₁, b₂, b₃, z, append-nil p₃.0, d₁);
                sig_fits = t₁;
                sized = record { handshake_id_size = l₁; sig_size = d₀ };
                sig_clean = d₂;
                whole = ground arith;
              })

-- What a successful `decode_server_hello` has read.
pub record ReadsServerHello (buf : List ℕ) (r : ServerHello × ℕ) : Type 0 where
  pub bytes :
      buf
      ≡ msg_type_server_hello
        ∷ r.0.id_len
        ∷ (take r.0.id_len r.0.id
            ++ server_rest r.0.ephemeral_pub r.0.mlkem_ct r.0.nonce r.0.session_id_echo r.0.sig_len
                (take r.0.sig_len r.0.sig))
  pub id_fits : id_len_ok r.0.id_len ≡ true
  pub sig_fits : sig_len_ok r.0.sig_len ≡ true
  pub sized : IsServerHello r.0
  pub clean : IsClean r.0.id r.0.id_len
  pub sig_clean : IsClean r.0.sig r.0.sig_len
  pub whole : r.1 ≡ length buf

pub decode_server_hello_inv :
    (buf : List ℕ) (m : ServerHello) (n : ℕ)
    → AreBytes buf
    → decode_server_hello buf ≡ some (m, n)
    → ReadsServerHello buf (m, n)
unfolding decode_server_hello
decode_server_hello_inv buf m n w e = bind_elim (next_u8 buf) _ e λ p₀ e₀ k₀.
    guard_elim (p₀.0 == msg_type_server_hello) _ k₀ λ t₀ k₁.
      bind_elim (next_u8 p₀.1) _ k₁ λ p₁ e₁ k₂. guard_elim (id_len_ok p₁.0) _ k₂ λ t₁ k₃.
        bind_elim (next_field p₁.0 p₁.1) _ k₃ λ p₂ e₂ k₄.
          guard_elim (leb 1168 (length p₂.1)) _ k₄ λ t₂ k₅.
            bind_elim (next_u16 (drop 16 (drop 32 (drop 1088 (drop 32 p₂.1))))) _ k₅ λ p₃ e₃ k₆.
              guard_elim (sig_len_ok p₃.0) _ k₆ λ t₃ k₇.
                bind_elim (next_field p₃.0 p₃.1) _ k₇ λ p₄ e₄ k₈.
                  guard_elim (length p₄.1 == 0) _ k₈ λ t₄ k₉.
                    let b₀ : buf ≡ p₀.0 ∷ p₀.1 = next_u8_inv buf p₀.0 p₀.1 e₀ in
                    let b₁ : p₀.1 ≡ p₁.0 ∷ p₁.1 = next_u8_inv p₀.1 p₁.0 p₁.1 e₁ in
                    let (b₂, l₂) = next_field_inv p₁.0 p₁.1 p₂.0 p₂.1 e₂ in
                    let (b₃, l₃, l₄, l₅, l₆) =
                      fields_of_drops 32 1088 32 16 p₂.1 (leb→le 1168 (length p₂.1) t₂) in
                    let w₀ : AreBytes (p₀.0 ∷ (p₁.0 ∷ p₁.1)) = rw (b₀, b₁) at w in
                    let w₂ : AreBytes (p₂.0 ++ p₂.1) = rw b₂ at w₀.1.1 in
                    let b₄ =
                      next_u16_inv (drop 16 (drop 32 (drop 1088 (drop 32 p₂.1)))) p₃.0 p₃.1
                        (AreBytes-drop 16 _ (
                          AreBytes-drop 32 _ (
                            AreBytes-drop 1088 _
                              (AreBytes-drop 32 p₂.1 (AreBytes-append_right p₂.0 p₂.1 w₂)))))
                        e₃ in
                    let (b₅, l₇) = next_field_inv p₃.0 p₃.1 p₄.0 p₄.1 e₄ in
                    let z = nil_of_length p₄.1 in
                    let (c₀, c₁, c₂) =
                      IsClean-blit p₁.0 wire_id_max_len p₂.0 l₂ (id_len_le p₁.0 t₁) in
                    let (d₀, d₁, d₂) =
                      IsClean-blit p₃.0 mldsa_signature_max_bytes p₄.0 l₇ (sig_len_le p₃.0 t₃) in
                    subst (ReadsServerHello buf) (some_inj k₉) (record {
                      bytes = ground (arith, b₀, b₁, b₂, b₃, b₄, b₅, z, append-nil p₄.0, c₁, d₁);
                      id_fits = t₁;
                      sig_fits = t₃;
                      sized = record {
                        id_size = c₀;
                        ephemeral_pub_size = l₃;
                        mlkem_ct_size = l₄;
                        nonce_size = l₅;
                        session_id_echo_size = l₆;
                        sig_size = d₀;
                      };
                      clean = c₂;
                      sig_clean = d₂;
                      whole = ground arith;
                    })
