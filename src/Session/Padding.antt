-- ===== src/Session/Padding.antt =====
-- The padding of src/protocol/session.c: sizes of the inner text and of the record.
use mldsa_auth.Base.{arith, inl, inr, true, ℕ, ◌%◌, ◌+◌, ◌<◌, ◌≡◌, ◌≤◌, ◌⊎◌}
use mldsa_auth.Session.{
  Limits, inner_len_for, limits_valid, pad_bucket_valid, session_content_len_bytes,
  session_max_content_bytes, session_max_plaintext_bytes, session_reject_after_messages,
}

-- The six buckets.
abbrev IsBucket : ℕ → Type 0
IsBucket b = (b ≡ 1) ⊎ ((b ≡ 16) ⊎ ((b ≡ 64) ⊎ ((b ≡ 256) ⊎ ((b ≡ 1024) ⊎ (b ≡ 4096)))))

IsBucket-cases : (b : ℕ) → pad_bucket_valid b ≡ true → IsBucket b
unfolding pad_bucket_valid
IsBucket-cases b h = ground arith

-- What rounding up to a bucket gives.
pub record Padded (n b inner : ℕ) : Type 0 where
  pub holds : n + session_content_len_bytes ≤ inner
  pub tight : inner < n + session_content_len_bytes + b
  pub bounded : inner ≤ session_max_plaintext_bytes
  pub whole : inner % b ≡ 0

Padded-at : (n b : ℕ) → n ≤ session_max_content_bytes → IsBucket b → Padded n b (inner_len_for n b)
unfolding inner_len_for
Padded-at n b h (inl e) = rw e (omega arith)
Padded-at n b h (inr (inl e)) = rw e (omega arith)
Padded-at n b h (inr (inr (inl e))) = rw e (omega arith)
Padded-at n b h (inr (inr (inr (inl e)))) = rw e (omega arith)
Padded-at n b h (inr (inr (inr (inr (inl e))))) = rw e (omega arith)
Padded-at n b h (inr (inr (inr (inr (inr e))))) = rw e (omega arith)

-- `inner_len_for` rounds the content and its prefix up to the next multiple of the bucket, and for
-- no allowed bucket and content does that leave the bound of the inner text.
pub inner_len_for-Padded :
    (n b : ℕ)
    → n ≤ session_max_content_bytes
    → pad_bucket_valid b ≡ true
    → Padded n b (inner_len_for n b)
inner_len_for-Padded n b h v = Padded-at n b h (IsBucket-cases b v)

-- What the later checks take from valid limits.
pub limits_bound :
    (l : Limits)
    → limits_valid l ≡ true
    → (l.reject_after_messages ≤ session_reject_after_messages)
      × (pad_bucket_valid l.pad_bucket ≡ true)
unfolding limits_valid
limits_bound l h = ground arith
