-- ===== src/Sync/Retry.antt =====
-- The delay of `compute_protocol_retry_delay` in clients/rust/src/protocol_sync.rs.
use opto_sync_clients.Base.{
  max, ◌≤◌, true, Bool, Option, some, Option-cases, inl, inr, ap, ◌↔◌, ℕ, ◌-◌, ◌*◌, ◌^◌, ◌<◌, ◌≡◌,
  min, arith,
}
use opto_sync_clients.Sync.Checks.{compute_protocol_retry_delay, retry_ceiling, duration_mod, delay}

-- The delay before the random factor is the base doubled with each further failure, up to thirty
-- times, and then the maximum: the overflow of the product is no different from a large product.
pub retry_ceiling_lem :
    (failures base maximum : ℕ)
    → maximum < duration_mod
    → retry_ceiling failures base maximum ≡ min (base * 2 ^ min (failures - 1) 30) maximum
unfolding retry_ceiling
retry_ceiling_lem failures base maximum h = ground arith

module _ {F : Type 0} (in_unit : F → Bool) (scaled : ℕ → F → Option ℕ) where
  -- A delay is returned exactly for at least one failure, a base from 1 that the maximum reaches
  -- and a sample between 0 and 1, when the base doubled with each further failure, up to thirty
  -- times, and capped by the maximum can be scaled by the sample: it is that scaled delay, or
  -- `retry_after` where this is larger. The maximum is a `Duration`.
  pub compute_protocol_retry_delay_iff :
      (failures base maximum : ℕ) (sample : F) (retry_after d : ℕ)
      → maximum < duration_mod
      → (compute_protocol_retry_delay in_unit scaled failures base maximum sample retry_after
          ≡ delay d)
        ↔ ((0 < failures)
            × (0 < base)
            × (base ≤ maximum)
            × (in_unit sample ≡ true)
            × ((s : ℕ) × (scaled (min (base * 2 ^ min (failures - 1) 30) maximum) sample ≡ some s)
                × (d ≡ max s retry_after)))
  unfolding compute_protocol_retry_delay
  compute_protocol_retry_delay_iff failures base maximum sample retry_after d h =
      let same : scaled (retry_ceiling failures base maximum) sample
          ≡ scaled (min (base * 2 ^ min (failures - 1) 30) maximum) sample =
        ap (λ (c : ℕ). scaled c sample) (retry_ceiling_lem failures base maximum h) in
      elim (Option-cases (scaled (min (base * 2 ^ min (failures - 1) 30) maximum) sample)) [
        | inl over ↦ (λ e. absurd (ground arith), λ (f, b, m, u, (s, e, t)). absurd (cc))
        | inr (s, fits) ↦ (
          λ e. (ground arith, ground arith, ground arith, ground arith, (s, fits, ground arith)),
          λ (f, b, m, u, (s', e, t)). ground arith,
        )
      ]
