-- ===== src/Desktop/Exclusion.antt =====
-- What the lease store of clients/desktop-rust/src/lib.rs promises to owners that share it.
use opto_sync_clients.Base.{
  subst, ℕ, ◌≡◌, ◌≢◌, ◌<◌, ◌⊎◌, inl, inr, refl, sym, Bool, true, false, ◌&&◌, ◌||◌, not, none, some,
  List, [], ◌∷◌, ltb, all, if◌then◌else◌, Text, text_eq, text_eq_sound, text_eq_refl, arith,
  Bool-cases,
}
use opto_sync_clients.Base.Map.{lookup, lookup-insert, lookup-remove}
use opto_sync_clients.Protocol.Checks.{to_string}
use opto_sync_clients.Protocol.Decimal.{to_string-injective}
use opto_sync_clients.Desktop.Leases.{
  DesktopLeaseRequest, DesktopLeaseGrant, InMemoryDesktopLeaseStore, holds_at, fence_of, next_fence,
  max_u128, granted, try_acquire, same_lease, release, LeaseStep, acquire, give_back, lease_step,
  lease_steps,
}

-- Only a free or expired key is granted. The grant becomes the key's lease and bears the next
-- fence; the leases and fences of the other keys stay, and a refusal changes nothing.
pub try_acquire_cases :
    (store : InMemoryDesktopLeaseStore) (request : DesktopLeaseRequest)
    → ((holds_at request.now_ms (lookup request.key store.leases) ≡ true)
        × (try_acquire store request ≡ (store, none)))
      ⊎ (store' : InMemoryDesktopLeaseStore) × (holds_at request.now_ms
            (lookup request.key store.leases)
          ≡ false)
        × (let fence = next_fence (fence_of (lookup request.key store.fences)) in
            (try_acquire store request ≡ (store', some (granted request fence)))
            × ((k : Text)
                → (lookup k store'.leases ≡ (
                    if text_eq request.key k
                    then some (granted request fence)
                    else lookup k store.leases))
                  × (lookup k store'.fences
                      ≡ (if text_eq request.key k then some fence else lookup k store.fences))))
unfolding try_acquire
try_acquire_cases store request =
    elim (Bool-cases (holds_at request.now_ms (lookup request.key store.leases))) [
      | inl held ↦ inl (held, ground arith)
      | inr free ↦
          let fence = next_fence (fence_of (lookup request.key store.fences)) in
          inr (
            (try_acquire store request).0,
            free,
            (
              ground arith,
              λ k. rw free (
                lookup-insert request.key k (granted request fence) store.leases,
                lookup-insert request.key k fence store.fences,
              ),
            ),
          )
    ]

-- A step that leaves the lease alone: a request for its key comes before it expires, and it is not
-- given back by its holder.
abbrev pub leaves : DesktopLeaseGrant → LeaseStep → Bool
leaves g (acquire request) = not (text_eq request.key g.key) || ltb request.now_ms g.expires_at_ms
leaves g (give_back h) =
    not (text_eq h.key g.key) || not (text_eq g.token h.token && text_eq g.fence h.fence)

leaves-keeps :
    (g : DesktopLeaseGrant) (store : InMemoryDesktopLeaseStore) (step : LeaseStep)
    → lookup g.key store.leases ≡ some g
    → leaves g step ≡ true
    → lookup g.key (lease_step store step).leases ≡ some g
unfolding lease_step holds_at release same_lease
leaves-keeps g store (acquire request) held ok = elim (try_acquire_cases store request) [
  | inl (h, e) ↦ rw (e, lease_step) held
  | inr (store', h, (e, look)) ↦
      rw (e, lease_step) (ground (arith, look g.key, text_eq_sound request.key g.key))
]
leaves-keeps g store (give_back h) held ok =
    ground (arith, lookup-remove h.key g.key store.leases, text_eq_sound h.key g.key)

-- A lease excludes every other owner: through all requests for its key that come before it
-- expires, all requests for other keys, and whatever is given back short of this very lease, it
-- stays, and a request for its key before it expires is refused.
pub lease_excludes :
    (g : DesktopLeaseGrant) (store : InMemoryDesktopLeaseStore) (steps : List LeaseStep)
    (request : DesktopLeaseRequest)
    → lookup g.key store.leases ≡ some g
    → all (leaves g) steps ≡ true
    → request.key ≡ g.key
    → request.now_ms < g.expires_at_ms
    → let later = lease_steps store steps in
      (lookup g.key later.leases ≡ some g) × (try_acquire later request ≡ (later, none))
unfolding lease_steps holds_at
lease_excludes g store [] request held ok key now =
    (held, ground (arith, try_acquire_cases store request))
lease_excludes g store (step ∷ steps) request held ok key now =
    lease_excludes g (lease_step store step) steps request
      (leaves-keeps g store step held (ground arith)) (ground arith) key now

-- The key's counter is above `f`, and so is the fence of its lease.
pub record IsBeyond (key : Text) (f : ℕ) (store : InMemoryDesktopLeaseStore) : Type 0 where
  pub counter : f < fence_of (lookup key store.fences)
  pub newer :
      (lookup key store.leases ≡ none)
      ⊎ ((g : DesktopLeaseGrant) × (n : ℕ) × (lookup key store.leases ≡ some g)
          × (g.fence ≡ to_string n)
          × (f < n))

step-IsBeyond :
    (key : Text) (f : ℕ) (store : InMemoryDesktopLeaseStore) (step : LeaseStep)
    → f < max_u128
    → IsBeyond key f store
    → IsBeyond key f (lease_step store step)
unfolding lease_step release granted
step-IsBeyond key f store (acquire request) small b = elim (try_acquire_cases store request) [
  | inl (h, e) ↦ rw (e, lease_step) b
  | inr (store', h, (e, look)) ↦
      let fence = next_fence (fence_of (lookup request.key store.fences)) in
      let (held, count) = look key in
      let above : f < fence_of (lookup key store'.fences) =
        ground (arith, b.counter, text_eq_sound request.key key) in
      rw (e, lease_step)
        (elim (Bool-cases (text_eq request.key key)) [
          | inl same ↦ record {
            counter = above;
            newer = inr (
              granted request fence,
              fence,
              ground arith,
              refl,
              ground (arith, b.counter, text_eq_sound request.key key),
            );
          }
          | inr other ↦ record { counter = above; newer = ground (arith, b.newer) }
        ])
]
step-IsBeyond key f store (give_back h) small b = record {
  counter = ground (arith, b.counter);
  newer = elim (Bool-cases (text_eq h.key key)) [
    | inl same ↦ ground (arith, b.newer, lookup-remove h.key key store.leases)
    | inr other ↦ ground (arith, b.newer, lookup-remove h.key key store.leases)
  ];
}

steps-IsBeyond :
    (key : Text) (f : ℕ) (store : InMemoryDesktopLeaseStore) (steps : List LeaseStep)
    → f < max_u128
    → IsBeyond key f store
    → IsBeyond key f (lease_steps store steps)
unfolding lease_steps
steps-IsBeyond key f store [] small b = b
steps-IsBeyond key f store (step ∷ steps) small b =
    steps-IsBeyond key f (lease_step store step) steps small
      (step-IsBeyond key f store step small b)

granted-IsBeyond :
    (key : Text) (store : InMemoryDesktopLeaseStore) (request : DesktopLeaseRequest)
    {store' : InMemoryDesktopLeaseStore} {h : DesktopLeaseGrant}
    → fence_of (lookup key store.fences) < max_u128
    → request.key ≡ key
    → try_acquire store request ≡ (store', some h)
    → IsBeyond key (fence_of (lookup key store.fences)) store'
unfolding granted
granted-IsBeyond key store request {store' = store'} {h = h} small same taken =
    elim (try_acquire_cases store request) [
      | inl (held, e) ↦ absurd (ground arith)
      | inr (next, free, (e, look)) ↦
          let there : next ≡ store' = ground arith in
          let (lease, count) = look key in
          let fence = next_fence (fence_of (lookup request.key store.fences)) in
          let eq = text_eq_refl key in
          subst (IsBeyond key (fence_of (lookup key store.fences))) there (record {
            counter = ground arith;
            newer = inr (granted request fence, fence, ground arith, refl, ground arith);
          })
    ]

IsBeyond-release :
    (store : InMemoryDesktopLeaseStore) (g : DesktopLeaseGrant) (f : ℕ)
    → IsBeyond g.key f store
    → g.fence ≡ to_string f
    → release store g ≡ store
unfolding release same_lease
IsBeyond-release store g f b fence = elim b.newer [
  | inl free ↦ ground arith
  | inr (current, n, held, text, above) ↦
      ground (arith, text_eq_sound current.fence g.fence, to_string-injective n f)
]

IsBeyond-grant :
    (key : Text) (store : InMemoryDesktopLeaseStore) (request : DesktopLeaseRequest) (f : ℕ)
    → f < max_u128
    → IsBeyond key f store
    → ((try_acquire store request).1 ≡ none)
      ⊎ (request.key ≢ key)
      ⊎ ((n : ℕ) × ((try_acquire store request).1 ≡ some (granted request n)) × (f < n))
IsBeyond-grant key store request f small b = elim (try_acquire_cases store request) [
  | inl (held, e) ↦ inl (ground arith)
  | inr (next, free, (e, look)) ↦
      let fence = next_fence (fence_of (lookup request.key store.fences)) in
      elim (Bool-cases (text_eq request.key key)) [
        | inl same ↦
            inr
              (inr (fence, ground arith, ground (arith, b.counter, text_eq_sound request.key key)))
        | inr other ↦ inr (inl (λ q. ground (arith, text_eq_refl key)))
      ]
]

-- Let a grant `g` bear the key's current fence, below the largest `u128`, when another request for
-- the key is granted. Through whatever steps follow, giving `g` back does nothing, so it never
-- removes a newer owner's lease, and each later grant of the key bears a larger number.
pub late_release :
    (store : InMemoryDesktopLeaseStore) (request later : DesktopLeaseRequest)
    (steps : List LeaseStep) (g : DesktopLeaseGrant) {store' : InMemoryDesktopLeaseStore}
    {h : DesktopLeaseGrant}
    → g.fence ≡ to_string (fence_of (lookup request.key store.fences))
    → g.key ≡ request.key
    → fence_of (lookup request.key store.fences) < max_u128
    → try_acquire store request ≡ (store', some h)
    → let now = lease_steps store' steps in
      (release now g ≡ now)
      × ((try_acquire now later).1 ≡ none
          ⊎ (later.key ≢ request.key)
          ⊎ ((n : ℕ) × ((try_acquire now later).1 ≡ some (granted later n))
              × (fence_of (lookup request.key store.fences) < n)))
late_release store request later steps g {store' = store'} {h = h} fence key small taken =
    let f = fence_of (lookup request.key store.fences) in
    let beyond =
      steps-IsBeyond request.key f store' steps small
        (granted-IsBeyond request.key store request small refl taken) in
    let now = lease_steps store' steps in
    (
      IsBeyond-release now g f (subst (λ k. IsBeyond k f now) (sym key) beyond) fence,
      IsBeyond-grant request.key now later f small beyond,
    )
