-- ===== src/Helius/Buckets.antt =====
-- The token buckets and their capacity.
use solana_whale_intelligenc.Prelude.{◌≡◌, refl, ℕ, true, if-keeps, Option, ◌-◌}
use solana_whale_intelligenc.Float.{F64}
use solana_whale_intelligenc.Helius.{
  BucketFloat, TokenBucket, f_zero, f_one, new_bucket, refill, take_token, bucket_acquire,
}

module _ (fl : F64) (fb : BucketFloat fl) where
  -- What IEEE 754 gives for finite operands: rates, and seconds that a clock has counted.
  pub record IsRated : Type 0 where
    pub rate_nonneg : (r : ℕ) → fl.le (f_zero fl fb) (fb.of_u32 r) ≡ true
    pub rate_refl : (r : ℕ) → fl.le (fb.of_u32 r) (fb.of_u32 r) ≡ true
    pub product_nonneg :
        (d r : ℕ) → fl.le (f_zero fl fb) (fl.mul (fb.as_secs d) (fb.of_u32 r)) ≡ true
    pub sum_nonneg :
        (a b : fl.F)
        → fl.le (f_zero fl fb) a ≡ true
        → fl.le (f_zero fl fb) b ≡ true
        → fl.le (f_zero fl fb) (fb.add a b) ≡ true
    pub min_le : (a b : fl.F) → fl.le b b ≡ true → fl.le (fb.minimum a b) b ≡ true
    pub min_ge :
        (c a b : fl.F) → fl.le c a ≡ true → fl.le c b ≡ true → fl.le c (fb.minimum a b) ≡ true
    pub minus_one_nonneg :
        (a : fl.F)
        → fl.le (f_one fl fb) a ≡ true
        → fl.le (f_zero fl fb) (fl.sub a (f_one fl fb)) ≡ true
    pub minus_one_le : (a c : fl.F) → fl.le a c ≡ true → fl.le (fl.sub a (f_one fl fb)) c ≡ true

  -- A bucket of a rate, with no less than nothing and no more than its capacity.
  pub record IsWithin (rate : ℕ) (b : TokenBucket fl) : Type 0 where
    pub capacity : b.capacity ≡ fb.of_u32 rate
    pub nonneg : fl.le (f_zero fl fb) b.tokens ≡ true
    pub bounded : fl.le b.tokens (fb.of_u32 rate) ≡ true

  module _ (law : IsRated) (rate : ℕ) where
    pub new_bucket-IsWithin : (now : ℕ) → IsWithin rate (new_bucket fl fb rate now)
    unfolding new_bucket
    new_bucket-IsWithin now = record {
      capacity = refl;
      nonneg = law.rate_nonneg rate;
      bounded = law.rate_refl rate;
    }

    refill-IsWithin :
        (now : ℕ) (b : TokenBucket fl) → IsWithin rate b → IsWithin rate (refill fl fb now b)
    unfolding refill
    refill-IsWithin now b h =
        if-keeps (IsWithin rate) (fl.lt (f_zero fl fb) (fb.as_secs (now - b.last_refill)))
          (λ _. record {
            capacity = h.capacity;
            nonneg = rw h.capacity (
                law.min_ge _ _ _
                  (law.sum_nonneg _ _ h.nonneg (law.product_nonneg (now - b.last_refill) rate))
                  (law.rate_nonneg rate));
            bounded = rw h.capacity (law.min_le _ _ (law.rate_refl rate));
          })
          (λ _. h)

    -- To take a token, or to be told to wait, leaves a bucket within its capacity.
    pub bucket_acquire-IsWithin :
        (now : ℕ) (b : TokenBucket fl)
        → IsWithin rate b
        → IsWithin rate (bucket_acquire fl fb now b).1
    unfolding bucket_acquire take_token
    bucket_acquire-IsWithin now b h =
        let r = refill-IsWithin now b h in
        if-keeps {A = Option ℕ × TokenBucket fl} (λ x. IsWithin rate x.1)
          (fl.le (f_one fl fb) (refill fl fb now b).tokens)
          (λ e. record {
            capacity = r.capacity;
            nonneg = law.minus_one_nonneg _ e;
            bounded = law.minus_one_le _ _ r.bounded;
          })
          (λ _. r)
