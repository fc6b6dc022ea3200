-- ===== src/Exchange/Tasks/Send.antt =====
-- The rounds of TaskSendParticlesExchange.hpp in src/libPMacc/include/particles/tasks.
use piconalpaka.Prelude.{
  ℕ, zero, suc, ◌+◌, ◌-◌, ◌*◌, ◌<◌, ◌≤◌, ◌≡◌, Bool, true, false, ◌&&◌, leb, ◌==◌, some, List, arith,
  refl, ap, ◌∙◌,
}
use piconalpaka.Exchange.Tasks.{
  SendingParticles, wait_for_bash, wait_for_send, wait_for_send_end, finished, SendTask,
  new_send_task, send_init, send_poll, send_execute,
}
use piconalpaka.Exchange.Tasks.Rounds.{ready, polls, Next, arrive, and_false}

module _ {ℓ} {W : Type ℓ} (particles : SendingParticles W) (max_size : ℕ) where
  -- The particles on the stack in a round, and what the round leaves
  abbrev pub stack_size : W → ℕ
  stack_size w = particles.device_size (particles.bash_particles w)

  abbrev pub send_round : W → W
  send_round w = particles.async_send (particles.bash_particles w)

  -- `n` rounds fill the stack, and the one behind them does not.
  abbrev pub Rounds : ℕ → W → Type 0
  Rounds zero w = stack_size w < max_size
  Rounds (suc n) w = (stack_size w ≡ max_size) × Rounds n (send_round w)

  -- The task and the particles at the end
  abbrev pub sent_all : ℕ → W → SendTask × W
  sent_all zero w =
      (record { state = finished; max_size = max_size; last_size = stack_size w }, send_round w)
  sent_all (suc n) w = sent_all n (send_round w)

  data Phase : Type ℓ where
    bashing : ℕ → (n : ℕ) (w : W) → Rounds n w → Phase
    sending : (n : ℕ) (w : W) → Rounds n w → Phase
    ending ended : (w : W) → Rounds zero w → Phase

  state_of : Phase → SendTask × W
  state_of (bashing l n w h) = (
    record { state = wait_for_bash; max_size = max_size; last_size = l },
    particles.bash_particles w,
  )
  state_of (sending n w h) = (
    record { state = wait_for_send; max_size = max_size; last_size = stack_size w },
    send_round w,
  )
  state_of (ending w h) = (
    record { state = wait_for_send_end; max_size = max_size; last_size = stack_size w },
    send_round w,
  )
  state_of (ended w h) = sent_all zero w

  rank : Phase → ℕ
  rank (bashing l n w h) = 2 * n + 3
  rank (sending n w h) = 2 * n + 2
  rank (ending w h) = 1
  rank (ended w h) = 0

  goal : Phase → SendTask × W
  goal (bashing l n w h) = sent_all n w
  goal (sending n w h) = sent_all n w
  goal (ending w h) = sent_all zero w
  goal (ended w h) = sent_all zero w

  abbrev NextPhase : Phase → Bool → Bool → Type ℓ
  NextPhase = Next (send_execute particles) state_of rank goal

  moves :
      (ph ph' : Phase) (a b d : Bool)
      → send_execute particles a b (state_of ph) ≡ some (d, state_of ph')
      → goal ph' ≡ goal ph
      → rank ph' ≤ rank ph
      → ((a && b) ≡ true → rank ph' ≤ rank ph - 1)
      → NextPhase ph a b
  moves ph ph' a b d e g l p = record {
    is_done = d;
    phase = ph';
    returns = e;
    same = g;
    closer = l;
    progress = p;
  }

  next : (ph : Phase) (a b : Bool) → NextPhase ph a b
  unfolding send_execute send_poll send_init state_of rank goal
  next (bashing l n w h) true true =
      moves (bashing l n w h) (sending n w h) true true false refl refl (omega arith)
        (λ p. omega arith)
  next (bashing l n w h) true false =
      moves (bashing l n w h) (bashing l n w h) true false false refl refl (omega arith) (λ p. cc)
  next (bashing l n w h) false b =
      moves (bashing l n w h) (bashing l n w h) false b false refl refl (omega arith) (λ p. cc)
  next (sending zero w h) true b =
      let fits : leb (stack_size w) max_size ≡ true = ground (arith, h) in
      let short : (stack_size w == max_size) ≡ false = ground (arith, h) in
      moves (sending zero w h) (ending w h) true b false (rw (fits, short) refl) refl (omega arith)
        (λ p. omega arith)
  next (sending (suc n) w h) true b =
      let fits : leb (stack_size w) max_size ≡ true = ground (arith, h.0) in
      let full : (stack_size w == max_size) ≡ true = ground (arith, h.0) in
      moves (sending (suc n) w h) (bashing (stack_size w) n (send_round w) h.1) true b false
        (rw (fits, full) refl) refl (omega arith) (λ p. omega arith)
  next (sending n w h) false b =
      moves (sending n w h) (sending n w h) false b false refl refl (omega arith) (λ p. cc)
  next (ending w h) a true =
      moves (ending w h) (ended w h) a true true refl refl (omega arith) (λ p. omega arith)
  next (ending w h) a false =
      moves (ending w h) (ending w h) a false false refl refl (omega arith) (and_false a)
  next (ended w h) a b =
      moves (ended w h) (ended w h) a b true refl refl (omega arith) (λ p. omega arith)

  at_end : (ph : Phase) → rank ph ≡ 0 → state_of ph ≡ goal ph
  unfolding rank state_of goal
  at_end (ended w h) e = refl
  at_end (ending w h) e = absurd (omega (arith, e))
  at_end (sending n w h) e = absurd (omega (arith, e))
  at_end (bashing l n w h) e = absurd (omega (arith, e))

  pub send_lem :
      (n : ℕ) (w : W) (ps : List (Bool × Bool))
      → Rounds n w
      → 2 * n + 3 ≤ ready ps
      → polls (send_execute particles) ps (send_init particles (new_send_task max_size) w)
        ≡ some (sent_all n w)
  unfolding send_init state_of rank goal
  send_lem n w ps h enough =
      let (e, run, same, less) =
        arrive (send_execute particles) state_of rank goal next ps (bashing 0 n w h) in
      run ∙ ap some (at_end e (omega (arith, less, enough)) ∙ same)
