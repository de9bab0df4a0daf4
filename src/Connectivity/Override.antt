-- ===== src/Connectivity/Override.antt =====
-- The offline override of clients/rust-connectivity/src/lib.rs over runs of calls, and between two
-- threads.
use opto_sync_clients.Base.{
  ap, ◌∙◌, all, ℕ, ◌≡◌, ◌⊎◌, refl, Bool, true, false, none, List, [], ◌∷◌, arith, inl, inr,
}
use opto_sync_clients.Connectivity.Watcher.{
  expose, ConnectivityState, ConnectivitySource, ConnectivitySnapshot, Watcher, automatic, forced,
  offline, new, transition, observe, publish_at, set_total_offline,
}

pub data Call : Type 0 where
  publish : ConnectivityState → ConnectivitySource → ℕ → Call
  total_offline : Bool → ℕ → Call

-- The calls that do not lift the override.
abbrev pub keeps_offline : Call → Bool
keeps_offline (publish state source at) = true
keeps_offline (total_offline enabled now) = enabled

-- The state that was observed last.
abbrev pub last_state : List Call → ConnectivityState → ConnectivityState
last_state [] state = state
last_state (publish state source at ∷ calls) before = last_state calls state
last_state (total_offline enabled now ∷ calls) before = last_state calls before

module _ {W : Type 0} where
  -- An automatic state is the one that was last observed; a forced one is offline and unverified.
  pub record IsCoherent (a : Watcher W) : Type 0 where
    pub observed_automatic : a.observed.mode ≡ automatic
    pub follows :
        ((a.current.mode ≡ automatic)
          × (a.current.state ≡ a.observed.state)
          × (a.current.verified_at_ms ≡ a.observed.verified_at_ms))
        ⊎ ((a.current.mode ≡ forced)
            × (a.current.state ≡ offline)
            × (a.current.verified_at_ms ≡ none))

  unfoldable pub perform : Watcher W → Call → W → Watcher W × W × ConnectivitySnapshot
  unfolding publish_at set_total_offline
  perform a (publish state source at) w = publish_at a state source at w
  perform a (total_offline enabled now) w = set_total_offline a enabled now w

  unfoldable pub perform_all : List Call → Watcher W → W → Watcher W × W
  unfolding perform
  perform_all [] a w = (a, w)
  perform_all (call ∷ calls) a w = let (a', w', _) = perform a call w in perform_all calls a' w'

  perform-IsCoherent :
      (a : Watcher W) (call : Call) (w : W) → IsCoherent a → IsCoherent (perform a call w).0
  unfolding perform publish_at observe transition set_total_offline
  perform-IsCoherent a (publish state source at) w c = record {
    observed_automatic = ground arith;
    follows = elim c.follows [
      | inl (m, s, v) ↦ inl (ground arith, ground arith, ground arith)
      | inr (m, s, v) ↦ inr (ground arith, ground arith, ground arith)
    ];
  }
  perform-IsCoherent a (total_offline true now) w c = record {
    observed_automatic = let o = c.observed_automatic in ground arith;
    follows = elim c.follows [
      | inl (m, s, v) ↦ inr (ground arith, ground arith, ground arith)
      | inr (m, s, v) ↦ inr (ground arith, ground arith, ground arith)
    ];
  }
  perform-IsCoherent a (total_offline false now) w c = record {
    observed_automatic = let o = c.observed_automatic in ground arith;
    follows = elim c.follows [
      | inl (m, s, v) ↦ inl (ground arith, ground arith, ground arith)
      | inr (m, s, v) ↦
          let o = c.observed_automatic in inl (ground arith, ground arith, ground arith)
    ];
  }

  perform_all-IsCoherent :
      (calls : List Call) (a : Watcher W) (w : W)
      → IsCoherent a
      → IsCoherent (perform_all calls a w).0
  unfolding perform_all
  perform_all-IsCoherent [] a w c = c
  perform_all-IsCoherent (call ∷ calls) a w c =
      perform_all-IsCoherent calls _ _ (perform-IsCoherent a call w c)

  -- After any calls on a new watcher, made one at a time, it shows what was observed last with the
  -- time of its verification, or total offline without one.
  pub new-IsCoherent :
      (initial : ConnectivityState) (now : ℕ) (calls : List Call) (w : W)
      → IsCoherent (perform_all calls (new initial now) w).0
  unfolding new
  new-IsCoherent initial now calls w =
      perform_all-IsCoherent calls (new initial now) w
        (record { observed_automatic = refl; follows = inl (refl, refl, refl) })

  perform-forced :
      (a : Watcher W) (call : Call) (w : W)
      → a.current.mode ≡ forced
      → keeps_offline call ≡ true
      → ((perform a call w).0.current ≡ a.current) × ((perform a call w).1 ≡ w)
  unfolding perform publish_at observe set_total_offline
  perform-forced a (publish state source at) w f k = ground arith
  perform-forced a (total_offline true now) w f k = ground arith
  perform-forced a (total_offline false now) w f k = cc

  -- Once total offline is forced, no observation and no further request for it changes what the
  -- watcher shows, and no listener hears of them, until it is lifted.
  pub offline_stays :
      (a : Watcher W) (calls : List Call) (w : W)
      → a.current.mode ≡ forced
      → all keeps_offline calls ≡ true
      → ((perform_all calls a w).0.current ≡ a.current) × ((perform_all calls a w).1 ≡ w)
  unfolding perform_all
  offline_stays a [] w f k = (refl, refl)
  offline_stays a (call ∷ calls) w f k =
      let (same, quiet) = perform-forced a call w f (ground arith) in
      let (same', quiet') =
        offline_stays (perform a call w).0 calls (perform a call w).1 (rw same f) (ground arith) in
      (same' ∙ same, quiet' ∙ quiet)

  perform-observed :
      (a : Watcher W) (call : Call) (w : W)
      → (perform a call w).0.observed.state ≡ last_state (call ∷ []) a.observed.state
  unfolding perform publish_at observe transition set_total_offline
  perform-observed a (publish state source at) w = ground arith
  perform-observed a (total_offline true now) w = ground arith
  perform-observed a (total_offline false now) w = ground arith

  observed-last :
      (calls : List Call) (a : Watcher W) (w : W)
      → (perform_all calls a w).0.observed.state ≡ last_state calls a.observed.state
  unfolding perform_all
  observed-last [] a w = refl
  observed-last (publish state source at ∷ calls) a w =
      observed-last calls _ _
      ∙ ap (last_state calls) (perform-observed a (publish state source at) w)
  observed-last (total_offline enabled now ∷ calls) a w =
      observed-last calls _ _
      ∙ ap (last_state calls) (perform-observed a (total_offline enabled now) w)

  lifted :
      (a : Watcher W) (now : ℕ) (w : W)
      → a.current.mode ≡ forced
      → (set_total_offline a false now w).0.current.state ≡ a.observed.state
        × ((set_total_offline a false now w).0.current.mode ≡ a.observed.mode)
  unfolding set_total_offline transition
  lifted a now w f = ground arith

  -- What is observed while total offline is forced is not lost: lifting it shows the state that was
  -- observed last, before or during the override.
  pub offline_lifted :
      (a : Watcher W) (calls : List Call) (now : ℕ) (w : W)
      → a.current.mode ≡ forced
      → all keeps_offline calls ≡ true
      → (set_total_offline
          (perform_all calls a w).0
          false
          now
          (perform_all calls a w).1).0.current.state
        ≡ last_state calls a.observed.state
  offline_lifted a calls now w f k =
      let (same, _) = offline_stays a calls w f k in
      (lifted (perform_all calls a w).0 now (perform_all calls a w).1 (rw same f)).0
      ∙ observed-last calls a w

  -- One thread observes, another forces total offline, and the first shows what it observed:
  -- `publish_at` takes the lock twice, and what it shows is what it saw under the first.
  unfoldable pub interleaved :
      Watcher W → ConnectivityState → ConnectivitySource → ℕ → ℕ → W → Watcher W
  unfolding observe set_total_offline transition
  interleaved a state source at now w =
      let (b, seen, shown) = observe a state source at in
      let (c, w', _) = set_total_offline b true now w in (expose (c, seen, shown) w').0

  -- Between two threads the override can be lost: when a thread has observed a state, another
  -- forces total offline, and the first then shows what it observed, the watcher is automatic again
  -- with that state.
  pub offline_overtaken :
      (a : Watcher W) (state : ConnectivityState) (source : ConnectivitySource) (at now : ℕ) (w : W)
      → a.current.mode ≡ automatic
      → ((set_total_offline (observe a state source at).0 true now w).0.current.mode ≡ forced)
        × ((interleaved a state source at now w).current.mode ≡ automatic)
        × ((interleaved a state source at now w).current.state ≡ state)
  unfolding interleaved observe set_total_offline transition
  offline_overtaken a state source at now w m = ground arith
