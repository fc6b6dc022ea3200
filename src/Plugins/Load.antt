-- ===== src/Plugins/Load.antt =====
-- Loading and unloading in src/libPMacc/include/pluginSystem/PluginConnector.hpp.
use piconalpaka.Prelude.{
  ℕ, Bool, true, false, not, List, [], ◌∷◌, ◌==◌, if◌then◌else◌, reverse, mem-reverse, ◌≡◌, refl,
  ◌∙◌, ap, arith, mem, inl, inr, Bool-cases, ◌||◌, ◌&&◌, sym, All,
}
use piconalpaka.Plugins.{
  Connector, load, unload, load_each, unload_each, load_plugins, unload_plugins,
}

or_false : (b : Bool) → (b || false) ≡ b
or_false true = refl
or_false false = refl

and_true : (b : Bool) → (b && true) ≡ b
and_true true = refl
and_true false = refl

all_or : (a : Bool) {m : Bool} → m ≡ true → (a || m) ≡ true
all_or true h = refl
all_or false h = h

none_and : (a : Bool) {m : Bool} → m ≡ true → (a && not m) ≡ false
none_and true h = ap not h
none_and false h = refl

loaded_now : (same a m : Bool) → ((if same then true else a) || m) ≡ (a || (same || m))
loaded_now true true m = refl
loaded_now true false m = refl
loaded_now false a m = refl

unloaded_now : (same a m : Bool) → ((if same then false else a) && not m) ≡ (a && not (same || m))
unloaded_now true true m = refl
unloaded_now true false m = refl
unloaded_now false a m = refl

loaded_before :
    (q : ℕ) (m : Bool) (loaded : ℕ → Bool) (p : ℕ)
    → loaded q ≡ true
    → (loaded p || m) ≡ (loaded p || (q == p || m))
loaded_before q m loaded p h = elim (Bool-cases (q == p)) [
  | inl e ↦ let s : q ≡ p = ground arith in rw (← s, h) refl
  | inr e ↦ rw e refl
]

unloaded_before :
    (q : ℕ) (m : Bool) (loaded : ℕ → Bool) (p : ℕ)
    → loaded q ≡ false
    → (loaded p && not m) ≡ (loaded p && not (q == p || m))
unloaded_before q m loaded p h = elim (Bool-cases (q == p)) [
  | inl e ↦ let s : q ≡ p = ground arith in rw (← s, h) refl
  | inr e ↦ rw e refl
]

-- What holds of every member holds all along the list.
All-mem : {P : ℕ → Type 0} (ps : List ℕ) → ((p : ℕ) → mem p ps ≡ true → P p) → All P ps
All-mem [] h = tt
All-mem (p ∷ ps) h = (
  h p (ap (λ b. b || mem p ps) (same p)),
  All-mem ps (λ q m. h q (ap (λ b. p == q || b) m ∙ or_true (p == q))),
)
  where
    same : (n : ℕ) → (n == n) ≡ true
    same n = ground arith

    or_true : (b : Bool) → (b || true) ≡ true
    or_true true = refl
    or_true false = refl

module _ {World : Type 0} (plugin_load plugin_unload : ℕ → World → World) where
  abbrev loading : List ℕ → Connector World → Connector World
  loading = load_each plugin_load plugin_unload

  abbrev unloading : List ℕ → Connector World → Connector World
  unloading = unload_each plugin_load plugin_unload

  load_each_lem :
      (ps : List ℕ) (s : Connector World) (p : ℕ)
      → ((loading ps s).loaded p ≡ (s.loaded p || mem p ps)) × ((loading ps s).plugins ≡ s.plugins)
  unfolding load_each load
  load_each_lem [] s p = (sym (or_false (s.loaded p)), refl)
  load_each_lem (q ∷ ps) s p = elim (Bool-cases (s.loaded q)) [
    | inl e ↦
        let r = load_each_lem ps s p in
        rw (load_each, e) (r.0 ∙ loaded_before q (mem p ps) s.loaded p e, r.1)
    | inr e ↦
        let r = load_each_lem ps (load plugin_load plugin_unload q s) p in
        rw (load_each, e) (r.0 ∙ loaded_now (q == p) (s.loaded p) (mem p ps), r.1)
  ]

  unload_each_lem :
      (ps : List ℕ) (s : Connector World) (p : ℕ)
      → ((unloading ps s).loaded p ≡ (s.loaded p && not (mem p ps)))
        × ((unloading ps s).plugins ≡ s.plugins)
  unfolding unload_each unload
  unload_each_lem [] s p = (sym (and_true (s.loaded p)), refl)
  unload_each_lem (q ∷ ps) s p = elim (Bool-cases (s.loaded q)) [
    | inl e ↦
        let r = unload_each_lem ps (unload plugin_load plugin_unload q s) p in
        rw (unload_each, e) (r.0 ∙ unloaded_now (q == p) (s.loaded p) (mem p ps), r.1)
    | inr e ↦
        let r = unload_each_lem ps s p in
        rw (unload_each, e) (r.0 ∙ unloaded_before q (mem p ps) s.loaded p e, r.1)
  ]

  -- Where every plugin of the list is loaded, nothing is done.
  load_each-loaded :
      (ps : List ℕ) (s : Connector World) → All (λ p. s.loaded p ≡ true) ps → loading ps s ≡ s
  unfolding load_each
  load_each-loaded [] s h = refl
  load_each-loaded (p ∷ ps) s h = rw (h.0) (load_each-loaded ps s h.1)

  unload_each-unloaded :
      (ps : List ℕ) (s : Connector World) → All (λ p. s.loaded p ≡ false) ps → unloading ps s ≡ s
  unfolding unload_each
  unload_each-unloaded [] s h = refl
  unload_each-unloaded (p ∷ ps) s h = rw (h.0) (unload_each-unloaded ps s h.1)

  -- After `loadPlugins` the registered plugins are loaded, besides those that were before; and after
  -- `unloadPlugins` they are not.
  pub load_plugins_lem :
      (s : Connector World) (p : ℕ)
      → ((load_plugins plugin_load plugin_unload s).loaded p ≡ (s.loaded p || mem p s.plugins))
        × ((unload_plugins plugin_load plugin_unload s).loaded p
            ≡ (s.loaded p && not (mem p s.plugins)))
  unfolding load_plugins unload_plugins
  load_plugins_lem s p = (
    (load_each_lem (reverse s.plugins) s p).0 ∙ ap (λ b. s.loaded p || b) (mem-reverse p s.plugins),
    (unload_each_lem (reverse s.plugins) s p).0
        ∙ ap (λ b. s.loaded p && not b) (mem-reverse p s.plugins),
  )

  -- Loading a second time, or unloading a second time, calls no plugin and changes nothing.
  pub load_plugins_twice :
      (s : Connector World)
      → let r = load_plugins plugin_load plugin_unload s in
        let u = unload_plugins plugin_load plugin_unload s in
        (load_plugins plugin_load plugin_unload r ≡ r)
        × (unload_plugins plugin_load plugin_unload u ≡ u)
  unfolding load_plugins unload_plugins
  load_plugins_twice s =
      let ps = reverse s.plugins in
      let r = loading ps s in
      let u = unloading ps s in
      (
        ap (λ qs. loading (reverse qs) r) (load_each_lem ps s 0).1
            ∙ load_each-loaded ps r
                (All-mem ps (λ p h. (load_each_lem ps s p).0 ∙ all_or (s.loaded p) h)),
        ap (λ qs. unloading (reverse qs) u) (unload_each_lem ps s 0).1
            ∙ unload_each-unloaded ps u
                (All-mem ps (λ p h. (unload_each_lem ps s p).0 ∙ none_and (s.loaded p) h)),
      )
