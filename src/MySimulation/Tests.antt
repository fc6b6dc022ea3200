-- ===== src/MySimulation/Tests.antt =====
-- Fields of numbers that a step adds to, with a background; one device, without a moving window.
use piconalpaka.Prelude.{ℕ, ◌+◌, ◌-◌, ◌≡◌, refl, arith, true, false, pos, [], ◌∷◌, List, ◌++◌}
use piconalpaka.Dimensions.{create3, cell3}
use piconalpaka.Mask.{empty_mask}
use piconalpaka.Window.{init_sub_grid, new_moving_window}
use piconalpaka.Simulation.{Simulation, start_simulation, main_loop}
use piconalpaka.Simulation.Relate.{Both, Ends}
use piconalpaka.MySimulation.{MySimulation, Physics, Output, simulation_calls, end_init}
use piconalpaka.MySimulation.Reference.{with_background}
use piconalpaka.MySimulation.Background.{Shows, reference_calls, background_lem}
use piconalpaka.MySimulation.Restart.{Resumes, loaded, restart_lem}

abbrev numbers : Physics ℕ ℕ
numbers = record {
  add = λ a b. a + b;
  sub = λ a b. a - b;
  zero = 0;
  background_e = λ cell step. 7;
  background_b = λ cell step. 5;
  background_j = λ cell step. 1;
  influence_pusher_e = true;
  influence_pusher_b = false;
  activated_j = true;
  enable_current = true;
  has_species = true;
  no_margins = true;
  guarding_cells = create3 (pos 1);
  pace = record { devices_y = 1; steps_in_future = 0; steps_per_gpu = 1; offset_at = λ n. pos n };
  own = create3 (pos 0);
  cart_rank = λ c. pos 0;
  ionize = λ step place e b p. p;
  update_particles = λ step place e b p. p + e (cell3 0 0 0);
  update_before_current = λ step place e b. (e, b);
  compute_current = λ step place p j cell. j cell + p;
  communicate_e = λ f. f;
  communicate_b = λ f. f;
  communicate_j = λ f. f;
  add_current = λ area j e b. ((λ cell. e cell + j cell), b);
  update_after_current = λ step place e b. (e, b);
  reset_particles = λ step p. 0;
  init_species = λ step place p. 0;
}

abbrev cancel : (x v : ℕ) → numbers.sub (numbers.add x v) v ≡ x
cancel x v = omega arith

-- The plugins list what they see of `fieldE`.
abbrev listing : Output ℕ ℕ (List ℕ)
listing = record {
  invalidate = λ q. q;
  create_directory = λ q. q;
  notify = λ step s q. q ++ s.field_e (cell3 0 0 0) ∷ [];
  checkpoint = λ step s q. q;
  can_write = λ q. true;
}

abbrev at_rest : MySimulation ℕ ℕ
at_rest = record {
  place = record {
    moving_window = new_moving_window;
    sub_grid = init_sub_grid (create3 (pos 4)) (create3 (pos 4)) (create3 (pos 0));
    communicator = record {
      coordinates = create3 (pos 0);
      periodic = create3 (pos 0);
      ranks = λ i. pos 0;
      dims = create3 (pos 1);
      communication_mask = empty_mask;
      y_offset = pos 0;
    };
  };
  field_e = λ cell. 2;
  field_b = λ cell. 3;
  field_j = λ cell. 0;
  particles = 1;
}

abbrev three_steps : Simulation (List ℕ)
three_steps = record {
  run_steps = 3;
  checkpoint_period = 2;
  is_root = true;
  num_checkpoints = 0;
  master_file = [];
  world = [];
}

-- The same with a background that depends on the time
abbrev growing : Physics ℕ ℕ
growing = record numbers { background_e = λ cell step. 7 + step }

background_example :
    Both
      (Ends (Shows growing cancel listing))
      (start_simulation (reference_calls growing cancel listing) 0 (loaded three_steps at_rest))
      (start_simulation (simulation_calls growing listing) 0 (loaded three_steps at_rest))
background_example = background_lem growing cancel listing 0 (loaded three_steps at_rest)

at_rest-Resumes : Resumes numbers 1 at_rest
at_rest-Resumes = record {
  inactive = refl;
  still_e = λ cell. refl;
  still_b = λ cell. refl;
  exchanged_e = refl;
  exchanged_b = refl;
}

restart_example :
    start_simulation
      (simulation_calls numbers listing)
      2
      (loaded three_steps (end_init numbers 2 (with_background numbers 1 at_rest)))
    ≡ main_loop
        (simulation_calls numbers listing)
        2
        1
        (loaded three_steps (with_background numbers 1 at_rest))
restart_example = restart_lem numbers cancel listing 1 at_rest at_rest-Resumes three_steps
