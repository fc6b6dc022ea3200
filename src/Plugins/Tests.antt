-- ===== src/Plugins/Tests.antt =====
-- Two plugins; the rest of the program is the list of the calls, the last one first.
use piconalpaka.Prelude.{ℕ, ◌≡◌, ◌≢◌, arith, List, [], ◌∷◌, false, mem, if◌then◌else◌}
use piconalpaka.Plugins.{Connector, notify_plugins}
use piconalpaka.Plugins.Notify.{due, calls, notify_plugins_lem}

abbrev two_plugins : Connector (List ℕ)
two_plugins = record {
  plugins = 7 ∷ 8 ∷ [];
  notification_list = (7, 10) ∷ (8, 4) ∷ [];
  loaded = λ p. false;
  last_notify = λ p. 0;
  last_checkpoint = λ p. 0;
  world = [];
}

abbrev notify : ℕ → ℕ → List ℕ → List ℕ
notify p step w = p ∷ w

notify_plugins_example :
    let r = notify_plugins notify 12 two_plugins in
    let called = due 12 two_plugins.notification_list in
    (r.world ≡ calls (λ q. notify q 12) called two_plugins.world)
    × (r.last_notify 8 ≡ (if mem 8 called then 12 else two_plugins.last_notify 8))
    × (r.notification_list ≡ two_plugins.notification_list)
    × (r.plugins ≡ two_plugins.plugins)
notify_plugins_example = notify_plugins_lem notify 12 two_plugins 8

nine_is_valid : ◌≢◌ {A = ℕ} 9 0
nine_is_valid e = absurd (omega (arith, e))
