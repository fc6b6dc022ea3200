-- ===== src/Simulation/Steps.antt =====
-- Which steps `startSimulation` of src/libPMacc/include/simulationControl/SimulationHelper.hpp
-- computes, and at which it makes a checkpoint.
use piconalpaka.Prelude.{
  ℕ, zero, suc, ◌+◌, ◌-◌, ◌%◌, Bool, true, false, not, ◌&&◌, some, List, [], ◌∷◌, ◌++◌, ◌==◌,
  if◌then◌else◌, ltb, ◌≡◌, refl, ◌∙◌, ap, sym, arith, length, length-append, ◌>>=◌, Bool-cases, inl,
  inr, subst,
}
use mathlib.Core.List.{append_assoc, append-nil}
use piconalpaka.Simulation.Actions.{
  Action, run, check, notify, invalidate, perform_all, perform_all-append, steps, checkpoints,
  checkpoint_actions, dump_actions, round_actions, actions,
}
use piconalpaka.Simulation.{
  Simulation, Calls, write_checkpoint_step, checkpoint_due, make_checkpoint, dump_one_step,
  check_window, round, main_loop, start_simulation,
}

checkpoints-append :
    (period : ℕ) (xs ys : List ℕ)
    → checkpoints period (xs ++ ys) ≡ checkpoints period xs ++ checkpoints period ys
checkpoints-append period [] ys = refl
checkpoints-append period (x ∷ xs) ys = elim (Bool-cases (not (period == 0) && x % period == 0)) [
  | inl e ↦ rw e (ap (◌∷◌ x) (checkpoints-append period xs ys))
  | inr e ↦ rw e (checkpoints-append period xs ys)
]

-- From `s` to `t` the calls `cs` were made and no others, checkpoints were made at the steps `xs`, and
-- process 0 wrote them down.
pub record Wrote {World : Type 0} (calls : Calls World) (s t : Simulation World) (xs : List ℕ)
    (cs : List Action) : Type 0 where
  pub steps_kept : t.run_steps ≡ s.run_steps
  pub period_kept : t.checkpoint_period ≡ s.checkpoint_period
  pub root_kept : t.is_root ≡ s.is_root
  pub counted : t.num_checkpoints ≡ s.num_checkpoints + length xs
  pub written : t.master_file ≡ (if s.is_root then s.master_file ++ xs else s.master_file)
  pub called : t.world ≡ perform_all calls cs s.world

written_trans :
    (root : Bool) (f g h : List ℕ) (xs ys : List ℕ)
    → g ≡ (if root then f ++ xs else f)
    → h ≡ (if root then g ++ ys else g)
    → h ≡ (if root then f ++ (xs ++ ys) else f)
written_trans true f g h xs ys p q = q ∙ ap (λ l. l ++ ys) p ∙ append_assoc f xs ys
written_trans false f g h xs ys p q = q ∙ p

module _ {World : Type 0} {calls : Calls World} where
  Wrote-trans :
      {s t u : Simulation World} (xs ys : List ℕ) (cs ds : List Action)
      → Wrote calls s t xs cs
      → Wrote calls t u ys ds
      → Wrote calls s u (xs ++ ys) (cs ++ ds)
  Wrote-trans {s} {t} {u} xs ys cs ds h k = record {
    steps_kept = k.steps_kept ∙ h.steps_kept;
    period_kept = k.period_kept ∙ h.period_kept;
    root_kept = k.root_kept ∙ h.root_kept;
    counted = omega (arith, h.counted, k.counted, length-append xs ys);
    written = written_trans s.is_root s.master_file t.master_file u.master_file xs ys h.written (
        subst (λ r. u.master_file ≡ (if r then t.master_file ++ ys else t.master_file)) h.root_kept
          k.written);
    called =
        k.called
        ∙ ap (perform_all calls ds) h.called
        ∙ sym (perform_all-append calls cs ds s.world);
  }

  -- Only the world changed, by the calls `cs`.
  Wrote-calls :
      (s : Simulation World) (cs : List Action)
      → Wrote calls s (record s { world = perform_all calls cs s.world }) [] cs
  Wrote-calls s cs = record {
    steps_kept = refl;
    period_kept = refl;
    root_kept = refl;
    counted = omega arith;
    written = same s.is_root s.master_file;
    called = refl;
  }
    where
      same : (b : Bool) (l : List ℕ) → l ≡ (if b then l ++ [] else l)
      same true l = sym (append-nil l)
      same false l = refl

module _ {World : Type 0} (calls : Calls World)
    (writes : (w : World) → calls.can_write w ≡ true) where
  created :
      (k made : ℕ) (w : World)
      → calls.checkpoint_plugins k (if made == 0 then calls.create_directory w else w)
        ≡ perform_all calls (checkpoint_actions made k) w
  created k made w = elim (Bool-cases (made == 0)) [ inl e ↦ rw e refl | inr e ↦ rw e refl ]

  make_checkpoint-Wrote :
      (step : ℕ) (s : Simulation World)
      → (t : Simulation World) × (make_checkpoint calls step s ≡ some t)
        × Wrote calls s t (step ∷ []) (checkpoint_actions s.num_checkpoints step)
  unfolding make_checkpoint write_checkpoint_step
  make_checkpoint-Wrote step s =
      let w =
        calls.checkpoint_plugins step
          (if s.num_checkpoints == 0 then calls.create_directory s.world else s.world) in
      elim (Bool-cases s.is_root) [
        | inl e ↦ (
          record s {
            world = w;
            master_file = s.master_file ++ step ∷ [];
            num_checkpoints = suc s.num_checkpoints;
          },
          rw (make_checkpoint, e, write_checkpoint_step, writes w) refl,
          record {
            steps_kept = refl;
            period_kept = refl;
            root_kept = refl;
            counted = omega arith;
            written = rw e refl;
            called = created step s.num_checkpoints s.world;
          },
        )
        | inr e ↦ (
          record s { world = w; num_checkpoints = suc s.num_checkpoints },
          rw (make_checkpoint, e) refl,
          record {
            steps_kept = refl;
            period_kept = refl;
            root_kept = refl;
            counted = omega arith;
            written = rw e refl;
            called = created step s.num_checkpoints s.world;
          },
        )
      ]

  dump_one_step-Wrote :
      (step : ℕ) (s : Simulation World)
      → (t : Simulation World) × (dump_one_step calls step s ≡ some t)
        × Wrote calls s t
            (checkpoints s.checkpoint_period (step ∷ []))
            (dump_actions s.checkpoint_period s.num_checkpoints step)
  unfolding dump_one_step
  dump_one_step-Wrote step s =
      let first = invalidate ∷ notify step ∷ [] in
      let s1 = record s { world = perform_all calls first s.world } in
      elim (Bool-cases (checkpoint_due calls step s1)) [
        | inl e ↦
            let (t, made, wrote) = make_checkpoint-Wrote step s1 in
            (
              t,
              rw (dump_one_step, e) made,
              rw e (
                  Wrote-trans [] (step ∷ []) first (checkpoint_actions s.num_checkpoints step)
                    (Wrote-calls s first) wrote),
            )
        | inr e ↦ (s1, rw (dump_one_step, e) refl, rw e (Wrote-calls s first))
      ]

  round-Wrote :
      (step : ℕ) (s : Simulation World)
      → (t : Simulation World) × (round calls step s ≡ some t)
        × Wrote calls s t (checkpoints s.checkpoint_period (suc step ∷ [])) (
            run step
            ∷ check (suc step)
            ∷ dump_actions s.checkpoint_period s.num_checkpoints (suc step))
  unfolding round check_window
  round-Wrote step s =
      let first = run step ∷ check (suc step) ∷ [] in
      let (t, made, wrote) =
        dump_one_step-Wrote (suc step) (record s { world = perform_all calls first s.world }) in
      (
        t,
        made,
        Wrote-trans [] (checkpoints s.checkpoint_period (suc step ∷ [])) first
            (dump_actions s.checkpoint_period s.num_checkpoints (suc step)) (Wrote-calls s first)
            wrote,
      )

  -- The calls that follow depend on the period and on the checkpoints made so far.
  after :
      (s t u : Simulation World) (x ys : List ℕ) (cs : List Action)
      → Wrote calls s t (checkpoints s.checkpoint_period x) cs
      → (ds : ℕ → ℕ → List Action)
      → Wrote calls t u
          (checkpoints t.checkpoint_period ys)
          (ds t.checkpoint_period t.num_checkpoints)
      → Wrote calls s u (checkpoints s.checkpoint_period (x ++ ys)) (
          cs
          ++ ds s.checkpoint_period
              (s.num_checkpoints + length (checkpoints s.checkpoint_period x)))
  after s t u x ys cs h ds k =
      let p = s.checkpoint_period in
      let k1 =
        subst (λ c. Wrote calls t u (checkpoints c ys) (ds c t.num_checkpoints)) h.period_kept k in
      let k2 = subst (λ m. Wrote calls t u (checkpoints p ys) (ds p m)) h.counted k1 in
      subst (λ l. Wrote calls s u l (cs ++ ds p (s.num_checkpoints + length (checkpoints p x))))
        (sym (checkpoints-append p x ys))
        (Wrote-trans (checkpoints p x) (checkpoints p ys) cs
          (ds p (s.num_checkpoints + length (checkpoints p x))) h k2)

  main_loop-Wrote :
      (n step : ℕ) (s : Simulation World)
      → s.run_steps ≡ step + n
      → (t : Simulation World) × (main_loop calls n step s ≡ some (step + n, t))
        × Wrote calls s t
            (checkpoints s.checkpoint_period (steps (suc step) n))
            (round_actions s.checkpoint_period s.num_checkpoints step n)
  unfolding main_loop
  main_loop-Wrote zero step s h = (s, ap (λ m. some (m, s)) (omega arith), Wrote-calls s [])
  main_loop-Wrote (suc n) step s h =
      let (t, made, wrote) = round-Wrote step s in
      let (u, made', wrote') = main_loop-Wrote n (suc step) t (omega (arith, wrote.steps_kept)) in
      let l : ltb step s.run_steps ≡ true = ground arith in
      (
        u,
        rw (main_loop, l, made) (made' ∙ ap (λ m. some (m, u)) (omega arith)),
        after s t u (suc step ∷ []) (steps (suc (suc step)) n) _ wrote
            (λ p m. round_actions p m (suc step) n) wrote',
      )

  start_simulation-suc :
      (step n : ℕ) (s : Simulation World)
      → s.run_steps ≡ suc step + n
      → start_simulation calls (suc step) s
        ≡ main_loop calls (suc n) step (record s { world = calls.moving_window_check step s.world })
  unfolding start_simulation check_window
  start_simulation-suc step n s h =
      let b : (suc step == 0) ≡ false = ground arith in
      let p : suc step - 1 ≡ step = omega arith in
      let fuel : s.run_steps - step ≡ suc n = omega (arith, h) in
      rw (start_simulation, b, p, fuel) refl

  -- Where the master file can be written, `startSimulation` ends at the last step, whether it starts
  -- at step 0 or at the step of a restart. What it calls, and in which order, is `actions`: it checks the
  -- window; each round runs the step, checks the window of the next one, invalidates the data and
  -- notifies the plugins; the plugins make a checkpoint at exactly those steps from the first to the
  -- last, both included, that the period divides, the first time in a new directory. Process 0 writes
  -- these steps down in order.
  pub start_simulation_lem :
      (first n : ℕ) (s : Simulation World)
      → s.run_steps ≡ first + n
      → (t : Simulation World) × (start_simulation calls first s ≡ some (s.run_steps, t))
        × Wrote calls s t
            (checkpoints s.checkpoint_period (steps first (suc n)))
            (actions s.checkpoint_period s.num_checkpoints first n)
  unfolding start_simulation check_window
  start_simulation_lem zero n s h =
      let s0 = record s { world = calls.moving_window_check 0 s.world } in
      let (t, made, wrote) = dump_one_step-Wrote 0 s0 in
      let e : t.run_steps ≡ n = omega (arith, h, wrote.steps_kept) in
      let (u, made', wrote') = main_loop-Wrote n 0 t (omega (arith, e)) in
      let all = after s0 t u (0 ∷ []) (steps 1 n) _ wrote (λ p m. round_actions p m 0 n) wrote' in
      (
        u,
        ap (λ o. o >>= λ v. main_loop calls v.run_steps 0 v) made
            ∙ ap (λ m. main_loop calls m 0 t) e
            ∙ made'
            ∙ ap (λ m. some (m, u)) (sym h),
        Wrote-trans [] _ (check 0 ∷ []) _ (Wrote-calls s (check 0 ∷ [])) all,
      )
  start_simulation_lem (suc step) n s h =
      let s0 = record s { world = calls.moving_window_check step s.world } in
      let (u, made', wrote') = main_loop-Wrote (suc n) step s0 (omega (arith, h)) in
      (
        u,
        start_simulation-suc step n s h ∙ made' ∙ ap (λ m. some (m, u)) (omega (arith, h)),
        Wrote-trans [] _ (check step ∷ []) _ (Wrote-calls s (check step ∷ [])) wrote',
      )
