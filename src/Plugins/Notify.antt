-- ===== src/Plugins/Notify.antt =====
-- Notifications of src/libPMacc/include/pluginSystem/PluginConnector.hpp.
use piconalpaka.Prelude.{
  ℕ, ◌%◌, ◌<◌, Bool, true, false, none, some, List, [], ◌∷◌, ◌++◌, ◌==◌, ltb, if◌then◌else◌, update,
  ◌≡◌, ◌≢◌, ◌⊎◌, refl, ◌∙◌, ap, arith, All, mem, inl, inr, Bool-cases, ◌||◌, sym,
}
use piconalpaka.Plugins.{Connector, set_notification_period, notify_each, notify_plugins}

-- Who is notified at a step, in order.
abbrev pub due : ℕ → List (ℕ × ℕ) → List ℕ
due step [] = []
due step ((p, period) ∷ ps) = if step % period == 0 then p ∷ due step ps else due step ps

-- The calls, in order.
abbrev pub calls {ℓ} : {World : Type ℓ} → (ℕ → World → World) → List ℕ → World → World
calls f [] w = w
calls f (p ∷ ps) w = calls f ps (f p w)

abbrev pub Positive : List (ℕ × ℕ) → Type 0
Positive = All (λ e. 0 < e.1)

Positive-snoc : (ps : List (ℕ × ℕ)) (e : ℕ × ℕ) → Positive ps → 0 < e.1 → Positive (ps ++ e ∷ [])
Positive-snoc [] e h h' = (h', tt)
Positive-snoc (q ∷ qs) e h h' = (h.0, Positive-snoc qs e h.1 h')

due-snoc :
    (step p period : ℕ) (ps : List (ℕ × ℕ))
    → due step (ps ++ (p, period) ∷ [])
      ≡ (due step ps ++ (if step % period == 0 then p ∷ [] else []))
due-snoc step p period [] = refl
due-snoc step p period ((q, other) ∷ qs) = elim (Bool-cases (step % other == 0)) [
  | inl e ↦ rw e (ap (◌∷◌ q) (due-snoc step p period qs))
  | inr e ↦ rw e (due-snoc step p period qs)
]

calls-append :
    {World : Type 0} (f : ℕ → World → World) (xs ys : List ℕ) (w : World)
    → calls f (xs ++ ys) w ≡ calls f ys (calls f xs w)
calls-append f [] ys w = refl
calls-append f (x ∷ xs) ys w = calls-append f xs ys (f x w)

-- `setNotificationPeriod` refuses NULL. For any other object it succeeds, and keeps the periods in
-- the list positive, so that no notification divides by zero.
pub set_notification_period_lem :
    {World : Type 0} (p period : ℕ) (s : Connector World)
    → Positive s.notification_list
    → ((p ≡ 0) × (set_notification_period p period s ≡ none))
      ⊎ ((p ≢ 0)
          × ((t : Connector World) × (set_notification_period p period s ≡ some t)
              × Positive t.notification_list))
unfolding set_notification_period
set_notification_period_lem p period s h = elim (Bool-cases (p == 0)) [
  | inl e ↦ inl (ground arith, rw e refl)
  | inr e ↦ inr (
    ground arith,
    elim (Bool-cases (ltb 0 period)) [
      | inl l ↦ (
        record s { notification_list = s.notification_list ++ (p, period) ∷ [] },
        rw (e, l) refl,
        Positive-snoc s.notification_list (p, period) h (ground arith),
      )
      | inr l ↦ (s, rw (e, l) refl, h)
    ],
  )
]

module _ {World : Type 0} (notify : ℕ → ℕ → World → World) where
  notify_each_lem :
      (step : ℕ) (ps : List (ℕ × ℕ)) (s : Connector World) (p : ℕ)
      → let r = notify_each notify step ps s in
        (r.world ≡ calls (λ q. notify q step) (due step ps) s.world)
        × (r.last_notify p ≡ (if mem p (due step ps) then step else s.last_notify p))
        × (r.notification_list ≡ s.notification_list)
        × (r.plugins ≡ s.plugins)
  unfolding notify_each
  notify_each_lem step [] s p = (refl, refl, refl, refl)
  notify_each_lem step ((q, period) ∷ ps) s p = elim (Bool-cases (step % period == 0)) [
    | inl e ↦
        let t = record s {
          world = notify q step s.world;
          last_notify = update s.last_notify q step;
        } in
        let r = notify_each_lem step ps t p in
        rw (notify_each, e)
          (r.0, r.1 ∙ again step (s.last_notify p) (q == p) (mem p (due step ps)), r.2, r.3)
    | inr e ↦ rw (notify_each, e) (notify_each_lem step ps s p)
  ]
    where
      again :
          (a b : ℕ) (c d : Bool)
          → (if d then a else (if c then a else b)) ≡ (if c || d then a else b)
      again a b true true = refl
      again a b true false = refl
      again a b false true = refl
      again a b false false = refl

  -- `notifyPlugins` calls `notify` in the order of the list for those whose period divides the step,
  -- and notes the step for exactly those.
  pub notify_plugins_lem :
      (step : ℕ) (s : Connector World) (p : ℕ)
      → let r = notify_plugins notify step s in
        let called = due step s.notification_list in
        (r.world ≡ calls (λ q. notify q step) called s.world)
        × (r.last_notify p ≡ (if mem p called then step else s.last_notify p))
        × (r.notification_list ≡ s.notification_list)
        × (r.plugins ≡ s.plugins)
  unfolding notify_plugins
  notify_plugins_lem step s p = notify_each_lem step s.notification_list s p

  -- After `setNotificationPeriod` for an object that is not NULL and with a positive period,
  -- `notifyPlugins` makes the calls that it made before, and then one of the new object if the
  -- period divides the step.
  pub notify-set_notification_period :
      (step p period : ℕ) (s : Connector World)
      → p ≢ 0
      → 0 < period
      → (t : Connector World) × (set_notification_period p period s ≡ some t)
        × ((notify_plugins notify step t).world ≡ (
            if step % period == 0
            then notify p step (notify_plugins notify step s).world
            else (notify_plugins notify step s).world))
  unfolding set_notification_period
  notify-set_notification_period step p period s h positive =
      let t = record s { notification_list = s.notification_list ++ (p, period) ∷ [] } in
      let e : (p == 0) ≡ false = ground arith in
      let l : ltb 0 period ≡ true = ground arith in
      let before = (notify_plugins_lem step s p).0 in
      let after : (notify_plugins notify step t).world
          ≡ calls (λ q. notify q step)
              (due step s.notification_list ++ (if step % period == 0 then p ∷ [] else []))
              s.world =
        (notify_plugins_lem step t p).0
        ∙ ap (λ ps. calls (λ q. notify q step) ps s.world)
            (due-snoc step p period s.notification_list) in
      (
        t,
        rw (e, l) refl,
        after
            ∙ calls-append (λ q. notify q step) (due step s.notification_list)
                (if step % period == 0 then p ∷ [] else []) s.world
            ∙ last (step % period == 0) (sym before),
      )
    where
      last :
          {v w : World} (c : Bool)
          → v ≡ w
          → calls (λ q. notify q step) (if c then p ∷ [] else []) v
            ≡ (if c then notify p step w else w)
      last true h = ap (notify p step) h
      last false h = h
