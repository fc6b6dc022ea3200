-- ===== src/Simulation/Relate.antt =====
-- Two simulations that src/libPMacc/include/simulationControl/SimulationHelper.hpp runs side by side.
use piconalpaka.Prelude.{
  ℕ, zero, suc, ◌-◌, Bool, true, false, Option, none, some, ◌∷◌, [], ◌++◌, ◌==◌, if◌then◌else◌, ltb,
  ◌≡◌, arith, Bool-cases, inl, inr, ◌>>=◌,
}
use piconalpaka.Simulation.{
  Simulation, Calls, write_checkpoint_step, checkpoint_due, make_checkpoint, dump_one_step,
  check_window, round, main_loop, start_simulation,
}

-- What a relation of worlds at a step has to survive
pub record Simulates {A B : Type 0} (R : ℕ → A → B → Type 0) (c : Calls A) (d : Calls B)
    : Type 0 where
  pub steps_on :
      (k : ℕ) (a : A) (b : B)
      → R k a b
      → R
          (suc k)
          (c.moving_window_check (suc k) (c.run_one_step k a))
          (d.moving_window_check (suc k) (d.run_one_step k b))
  pub notifies :
      (k : ℕ) (a : A) (b : B)
      → R k a b
      → R k (c.notify_plugins k (c.invalidate a)) (d.notify_plugins k (d.invalidate b))
  pub creates :
      (k : ℕ) (a : A) (b : B) → R k a b → R k (c.create_directory a) (d.create_directory b)
  pub saves :
      (k : ℕ) (a : A) (b : B) → R k a b → R k (c.checkpoint_plugins k a) (d.checkpoint_plugins k b)
  pub writes : (k : ℕ) (a : A) (b : B) → R k a b → c.can_write a ≡ d.can_write b

-- A simulation with another world
abbrev pub in_world : {A B : Type 0} → Simulation A → B → Simulation B
in_world s b = record {
  run_steps = s.run_steps;
  checkpoint_period = s.checkpoint_period;
  is_root = s.is_root;
  num_checkpoints = s.num_checkpoints;
  master_file = s.master_file;
  world = b;
}

-- The same simulations but for their worlds, which are related
pub data Alike {A B : Type 0} (R : ℕ → A → B → Type 0) (k : ℕ)
    : Simulation A → Simulation B → Type 0 where
  alike : (s : Simulation A) (b : B) → R k s.world b → Alike R k s (in_world s b)

-- Both fail, or both have results that are related.
pub data Both {A B : Type 0} (R : A → B → Type 0) : Option A → Option B → Type 0 where
  fail : Both R none none
  give : {a : A} {b : B} → R a b → Both R (some a) (some b)

-- Two results of the main loop
pub data Ends {A B : Type 0} (R : ℕ → A → B → Type 0)
    : ℕ × Simulation A → ℕ × Simulation B → Type 0 where
  ends : {k : ℕ} {s : Simulation A} {t : Simulation B} → Alike R k s t → Ends R (k, s) (k, t)

module _ {A B : Type 0} {R : ℕ → A → B → Type 0} {c : Calls A} {d : Calls B}
    (simulates : Simulates R c d) where
  created :
      (k : ℕ) (n : Bool) (a : A) (b : B)
      → R k a b
      → R k (if n then c.create_directory a else a) (if n then d.create_directory b else b)
  created k true a b r = simulates.creates k a b r
  created k false a b r = r

  make_checkpoint_lem :
      (k : ℕ) (s : Simulation A) (b : B)
      → R k s.world b
      → Both (Alike R k) (make_checkpoint c k s) (make_checkpoint d k (in_world s b))
  unfolding make_checkpoint write_checkpoint_step
  make_checkpoint_lem k s b r =
      let n = s.num_checkpoints == 0 in
      let a1 = if n then c.create_directory s.world else s.world in
      let b1 = if n then d.create_directory b else b in
      let r1 = simulates.saves k a1 b1 (created k n s.world b r) in
      write k s.is_root (c.can_write (c.checkpoint_plugins k a1))
        (d.can_write (d.checkpoint_plugins k b1))
        (simulates.writes k (c.checkpoint_plugins k a1) (d.checkpoint_plugins k b1) r1)
        (record s { world = c.checkpoint_plugins k a1 }) (d.checkpoint_plugins k b1) r1
    where
      counted : {W : Type 0} → Simulation W → Option (Simulation W)
      counted s2 = some (record s2 { num_checkpoints = suc s2.num_checkpoints })

      listed : {W : Type 0} → ℕ → Bool → Simulation W → Option (Simulation W)
      listed k f s1 =
          if f then some (record s1 { master_file = s1.master_file ++ k ∷ [] }) else none

      write :
          (k : ℕ) (root f g : Bool)
          → f ≡ g
          → (s1 : Simulation A) (b1 : B) → R k s1.world b1
          → Both
              (Alike R k)
              ((if root then listed k f s1 else some s1) >>= counted)
              ((if root then listed k g (in_world s1 b1) else some (in_world s1 b1)) >>= counted)
      write k false f g e s1 b1 r1 =
          give (alike (record s1 { num_checkpoints = suc s1.num_checkpoints }) b1 r1)
      write k true true true e s1 b1 r1 = give (
          alike
            (record s1 {
              num_checkpoints = suc s1.num_checkpoints;
              master_file = s1.master_file ++ k ∷ [];
            })
            b1 r1)
      write k true true false e s1 b1 r1 = absurd (ground (arith, e))
      write k true false true e s1 b1 r1 = absurd (ground (arith, e))
      write k true false false e s1 b1 r1 = fail

  dump_one_step_lem :
      (k : ℕ) (s : Simulation A) (b : B)
      → R k s.world b
      → Both (Alike R k) (dump_one_step c k s) (dump_one_step d k (in_world s b))
  unfolding dump_one_step
  dump_one_step_lem k s b r =
      due k (checkpoint_due c k s) (record s { world = c.notify_plugins k (c.invalidate s.world) })
        (d.notify_plugins k (d.invalidate b)) (simulates.notifies k s.world b r)
    where
      due :
          (k : ℕ) (f : Bool) (s : Simulation A) (b : B)
          → R k s.world b
          → Both
              (Alike R k)
              (if f then make_checkpoint c k s else some s)
              (if f then make_checkpoint d k (in_world s b) else some (in_world s b))
      due k true s b r = make_checkpoint_lem k s b r
      due k false s b r = give (alike s b r)

  round_lem :
      (k : ℕ) (s : Simulation A) (b : B)
      → R k s.world b
      → Both (Alike R (suc k)) (round c k s) (round d k (in_world s b))
  unfolding round check_window
  round_lem k s b r =
      dump_one_step_lem (suc k)
        (record s { world = c.moving_window_check (suc k) (c.run_one_step k s.world) })
        (d.moving_window_check (suc k) (d.run_one_step k b)) (simulates.steps_on k s.world b r)

  further :
      (n k : ℕ) (x : Option (Simulation A)) (y : Option (Simulation B))
      → ((s : Simulation A) (b : B)
          → R k s.world b
          → Both (Ends R) (main_loop c n k s) (main_loop d n k (in_world s b)))
      → Both (Alike R k) x y
      → Both
          (Ends R)
          (elim x [ none ↦ none | some u ↦ main_loop c n k u ])
          (elim y [ none ↦ none | some u ↦ main_loop d n k u ])
  further n k _ _ loop fail = fail
  further n k _ _ loop (give (alike s b r)) = loop s b r

  main_loop_lem :
      (n k : ℕ) (s : Simulation A) (b : B)
      → R k s.world b
      → Both (Ends R) (main_loop c n k s) (main_loop d n k (in_world s b))
  unfolding main_loop
  main_loop_lem zero k s b r = give (ends (alike s b r))
  main_loop_lem (suc n) k s b r = elim (Bool-cases (ltb k s.run_steps)) [
    | inl e ↦
        rw (main_loop, e)
          (further n (suc k) (round c k s) (round d k (in_world s b)) (main_loop_lem n (suc k))
            (round_lem k s b r))
    | inr e ↦ rw (main_loop, e) (give (ends (alike s b r)))
  ]

  -- `startSimulation` from worlds that are related when the window has been checked at the first step
  pub start_simulation-Both :
      (first : ℕ) (s : Simulation A) (b : B)
      → R
          (first - 1)
          (c.moving_window_check (first - 1) s.world)
          (d.moving_window_check (first - 1) b)
      → Both (Ends R) (start_simulation c first s) (start_simulation d first (in_world s b))
  unfolding start_simulation check_window
  start_simulation-Both zero s b r =
      run (dump_one_step c 0 (check_window c 0 s))
        (dump_one_step d 0 (check_window d 0 (in_world s b)))
        (dump_one_step_lem 0 (check_window c 0 s) (d.moving_window_check 0 b) r)
    where
      run :
          (x : Option (Simulation A)) (y : Option (Simulation B))
          → Both (Alike R 0) x y
          → Both
              (Ends R)
              (x >>= λ t. main_loop c t.run_steps 0 t)
              (y >>= λ t. main_loop d t.run_steps 0 t)
      run _ _ fail = fail
      run _ _ (give (alike s b r)) = main_loop_lem s.run_steps 0 s b r
  start_simulation-Both (suc k) s b r =
      let z : (suc k == 0) ≡ false = ground arith in
      let p : suc k - 1 ≡ k = omega arith in
      rw z (
        main_loop_lem (s.run_steps - (suc k - 1)) (suc k - 1) (check_window c (suc k - 1) s)
          (d.moving_window_check (suc k - 1) b) r)
