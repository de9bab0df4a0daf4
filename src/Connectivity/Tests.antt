-- ===== src/Connectivity/Tests.antt =====
-- The theorems on clients/rust-connectivity/src/lib.rs, with a listener that counts.
use opto_sync_clients.Base.{false, ℕ, suc, ◌≡◌, refl, true, [], ◌∷◌, List}
use opto_sync_clients.Connectivity.Watcher.{
  transition, Watcher, new, automatic, forced, internet, link, unknown, platform, probe, observe,
  set_total_offline,
}
use opto_sync_clients.Connectivity.Override.{
  Call, publish, perform_all, interleaved, offline_lifted, offline_overtaken,
}

abbrev fresh : Watcher ℕ
fresh = record (new unknown 5) { listeners = (1, λ next previous w. suc w) ∷ [] }

abbrev cut : Watcher ℕ
cut = (set_total_offline fresh true 6 0).0

abbrev news : List Call
news = publish link platform 7 ∷ publish internet probe 8 ∷ []

offline_lifted_example :
    (set_total_offline
      (perform_all news cut 0).0
      false
      9
      (perform_all news cut 0).1).0.current.state
    ≡ internet
unfolding new set_total_offline transition
offline_lifted_example = offline_lifted cut news 9 0 refl refl

offline_overtaken_example :
    ((set_total_offline (observe fresh internet probe 7).0 true 8 0).0.current.mode ≡ forced)
    × ((interleaved fresh internet probe 7 8 0).current.mode ≡ automatic)
    × ((interleaved fresh internet probe 7 8 0).current.state ≡ internet)
unfolding new
offline_overtaken_example = offline_overtaken fresh internet probe 7 8 0 refl
