-- ===== src/Protocol/Confirm.antt =====
-- The rows that `acknowledge` of clients/rust/src/protocol.rs confirms: an independent description,
-- and the loop over the rows against it.
use opto_sync_clients.Base.{
  ◌⊎◌, ℕ, zero, suc, ◌+◌, ◌≤◌, ◌<◌, ◌≡◌, refl, sym, ◌∙◌, true, false, ◌&&◌, List, [], ◌∷◌, some,
  take, drop, length, last?, ok, arith, leb, if◌then◌else◌, Bool-cases, inl, inr,
}
use opto_sync_clients.Protocol.Types.{Json, ProtocolMutation, confirmed}
use opto_sync_clients.Protocol.Checks.{parse_decimal}
use opto_sync_clients.Protocol.Queue.{pending_of, still_pending}
use opto_sync_clients.Protocol.Acknowledge.{confirm_through}
use opto_sync_clients.Protocol.Wellformed.{Rows}

module _ {V : Type 0} where
  -- The first `k` pending rows become confirmed.
  unfoldable pub confirm_first : ℕ → List (ProtocolMutation V) → List (ProtocolMutation V)
  confirm_first zero ms = ms
  confirm_first (suc k) [] = []
  confirm_first (suc k) (m ∷ ms) =
      if still_pending m
      then record m { status = confirmed } ∷ confirm_first k ms
      else m ∷ confirm_first (suc k) ms

  pub pending-live :
      (m : ProtocolMutation V) (ms : List (ProtocolMutation V))
      → still_pending m ≡ true
      → pending_of (m ∷ ms) ≡ m ∷ pending_of ms
  pending-live m ms h = ground arith

  pub pending-done :
      (m : ProtocolMutation V) (ms : List (ProtocolMutation V))
      → still_pending m ≡ false
      → pending_of (m ∷ ms) ≡ pending_of ms
  pending-done m ms h = ground arith

  pub pending-confirm_first :
      (k : ℕ) (ms : List (ProtocolMutation V))
      → pending_of (confirm_first k ms) ≡ drop k (pending_of ms)
  unfolding confirm_first
  pending-confirm_first zero ms = refl
  pending-confirm_first (suc k) [] = refl
  pending-confirm_first (suc k) (m ∷ ms) =
      ground (arith, pending-confirm_first k ms, pending-confirm_first (suc k) ms)

  pub confirm-cons :
      (w c id : ℕ) (m : ProtocolMutation V) (ms : List (ProtocolMutation V))
      → parse_decimal m.mutation_id ≡ ok id
      → confirm_through w c (m ∷ ms) ≡ (
          let hit = leb id w && still_pending m in
          let rest = confirm_through w (if hit then c + 1 else c) ms in
          ((if hit then record m { status = confirmed } else m) ∷ rest.0, rest.1))
  unfolding confirm_through
  confirm-cons w c id m ms p = rw (p, confirm_through) refl

pub last_or_later {ℓ} :
    {A : Type ℓ} (k : ℕ) (m x : A) (ms : List A)
    → last? (take (suc k) (m ∷ ms)) ≡ some x
    → (m ≡ x) ⊎ ((j : ℕ) × (k ≡ suc j) × (last? (take (suc j) ms) ≡ some x))
last_or_later zero m x ms h = inl (cc)
last_or_later (suc j) m x [] h = inl (cc)
last_or_later (suc j) m x (y ∷ ms) h = inr (j, refl, h)

last-take {ℓ} :
    {A : Type ℓ} (i : ℕ) (m : A) (ms : List A)
    → suc i ≤ length ms
    → last? (m ∷ take (suc i) ms) ≡ last? (take (suc i) ms)
last-take i m [] h = absurd (omega arith)
last-take i m (y ∷ ms) h = refl

module _ {V : Type 0} (json : Json V) (next limit : ℕ) where
  -- The last of the first pending rows lies above the bound of the rows.
  last_above :
      (lo k : ℕ) (ms : List (ProtocolMutation V)) (x : ProtocolMutation V) (w : ℕ)
      → Rows json next limit lo ms
      → last? (take (suc k) (pending_of ms)) ≡ some x
      → parse_decimal x.mutation_id ≡ ok w
      → lo < w
  last_above lo k [] x w r e p = cc
  last_above lo k (m ∷ ms) x w (id, parsed, low, high, good, rest) e p =
      elim (Bool-cases (still_pending m)) [
        | inl live ↦ elim (last_or_later k m x (pending_of ms) (rw (pending-live m ms live) at e)) [
          | inl same ↦ ground arith
          | inr (j, _, later) ↦ omega (arith, last_above id j ms x w rest later p)
        ]
        | inr done ↦ omega (arith, last_above id k ms x w rest (rw (pending-done m ms done) at e) p)
      ]

  -- `w` is the id of the `k`th pending row; for `k = 0` all rows lie above it.
  abbrev Marks : ℕ → ℕ → ℕ → List (ProtocolMutation V) → Type 0
  Marks w lo zero ms = w ≤ lo
  Marks w lo (suc k) ms =
      (x : ProtocolMutation V) × (last? (take (suc k) (pending_of ms)) ≡ some x)
      × (parse_decimal x.mutation_id ≡ ok w)

  Marks-live :
      (w lo id k : ℕ) (m : ProtocolMutation V) (ms : List (ProtocolMutation V))
      → still_pending m ≡ true
      → parse_decimal m.mutation_id ≡ ok id
      → Rows json next limit id ms
      → k ≤ length (pending_of ms)
      → Marks w lo (suc k) (m ∷ ms)
      → (id ≤ w) × Marks w id k ms
  Marks-live w lo id zero m ms live parsed rest f (x, e, p) =
      let same : some m ≡ some x = rw (pending-live m ms live) at e in (ground arith, ground arith)
  Marks-live w lo id (suc i) m ms live parsed rest f (x, e, p) =
      let e' : last? (m ∷ take (suc i) (pending_of ms)) ≡ some x =
        rw (pending-live m ms live) at e in
      let later : last? (take (suc i) (pending_of ms)) ≡ some x =
        sym (last-take i m (pending_of ms) f) ∙ e' in
      (omega (arith, last_above id i ms x w rest later p), (x, later, p))

  pub confirm_through-eq :
      (w c lo k : ℕ) (ms : List (ProtocolMutation V))
      → Rows json next limit lo ms
      → k ≤ length (pending_of ms)
      → Marks w lo k ms
      → confirm_through w c ms ≡ (confirm_first k ms, ok (c + k))
  unfolding confirm_through confirm_first
  confirm_through-eq w c lo zero [] r f h = ground arith
  confirm_through-eq w c lo (suc k) [] r f h = absurd (omega arith)
  confirm_through-eq w c lo zero (m ∷ ms) (id, parsed, low, high, good, rest) f h =
      rw (confirm-cons w c id m ms parsed)
        (ground (arith, confirm_through-eq w c id zero ms rest (omega arith) (omega arith)))
  confirm_through-eq w c lo (suc k) (m ∷ ms) (id, parsed, low, high, good, rest) f h =
      rw (confirm-cons w c id m ms parsed) (elim (Bool-cases (still_pending m)) [
        | inl live ↦
            let more : suc (length (pending_of ms)) ≡ length (pending_of (m ∷ ms)) =
              rw (pending-live m ms live) refl in
            let (low, marks) = Marks-live w lo id k m ms live parsed rest (omega arith) h in
            ground (arith, confirm_through-eq w (c + 1) id k ms rest (omega arith) marks)
        | inr done ↦ ground (
          arith,
          confirm_through-eq w c id (suc k) ms rest (rw (pending-done m ms done) at f)
              (rw (pending-done m ms done) at h),
        )
      ])
