-- ===== src/Exchange/Tasks/Receive.antt =====
-- The rounds of TaskReceiveParticlesExchange.hpp in src/libPMacc/include/particles/tasks, against those
-- of TaskSendParticlesExchange.hpp.
use piconalpaka.Prelude.{
  ℕ, zero, suc, ◌+◌, ◌-◌, ◌*◌, ◌<◌, ◌≤◌, ◌≡◌, Bool, true, false, ◌&&◌, leb, ◌==◌, some, List, arith,
  refl, ap, ◌∙◌,
}
use piconalpaka.Exchange.Tasks.{
  SendingParticles, new_send_task, send_init, send_execute, ReceivingParticles, ReceiveState,
  wait_for_receive, wait_for_insert, ReceiveTask, new_receive_task, receive_init, receive_poll,
  receive_execute,
}
use piconalpaka.Exchange.Tasks.Rounds.{ready, polls, Next, arrive, and_false}
use piconalpaka.Exchange.Tasks.Send.{stack_size, send_round, Rounds, sent_all, send_lem}

module _ {ℓ} {W : Type ℓ} (particles : ReceivingParticles W) (max_size : ℕ) where
  -- The particles that arrive in a round, and what the round leaves
  abbrev pub message_size : W → ℕ
  message_size w = particles.host_size (particles.async_receive w)

  abbrev pub receive_round : W → W
  receive_round w = particles.insert_particles (particles.async_receive w)

  -- `n` rounds get a full message, and the one behind them a shorter one.
  abbrev Messages : ℕ → W → Type 0
  Messages zero w = message_size w < max_size
  Messages (suc n) w = (message_size w ≡ max_size) × Messages n (receive_round w)

  -- The task and the particles at the end
  abbrev pub received_all : ℕ → W → ReceiveTask × W
  received_all zero w = (
    record { state = ReceiveState.finished; max_size = max_size; last_size = message_size w },
    receive_round w,
  )
  received_all (suc n) w = received_all n (receive_round w)

  data Phase : Type ℓ where
    waiting : ℕ → (n : ℕ) (w : W) → Messages n w → Phase
    inserting : (n : ℕ) (w : W) → Messages n w → Phase
    ended : (w : W) → Messages zero w → Phase

  state_of : Phase → ReceiveTask × W
  state_of (waiting l n w h) = (
    record { state = wait_for_receive; max_size = max_size; last_size = l },
    particles.async_receive w,
  )
  state_of (inserting n w h) = (
    record { state = wait_for_insert; max_size = max_size; last_size = message_size w },
    receive_round w,
  )
  state_of (ended w h) = received_all zero w

  rank : Phase → ℕ
  rank (waiting l n w h) = 2 * n + 2
  rank (inserting n w h) = 2 * n + 1
  rank (ended w h) = 0

  goal : Phase → ReceiveTask × W
  goal (waiting l n w h) = received_all n w
  goal (inserting n w h) = received_all n w
  goal (ended w h) = received_all zero w

  abbrev NextPhase : Phase → Bool → Bool → Type ℓ
  NextPhase = Next (receive_execute particles) state_of rank goal

  moves :
      (ph ph' : Phase) (a b d : Bool)
      → receive_execute particles a b (state_of ph) ≡ some (d, state_of ph')
      → goal ph' ≡ goal ph
      → rank ph' ≤ rank ph
      → ((a && b) ≡ true → rank ph' ≤ rank ph - 1)
      → NextPhase ph a b
  moves ph ph' a b d e g l p = record {
    is_done = d;
    phase = ph';
    returns = e;
    same = g;
    closer = l;
    progress = p;
  }

  next : (ph : Phase) (a b : Bool) → NextPhase ph a b
  unfolding receive_execute receive_poll receive_init state_of rank goal
  next (waiting l n w h) true b =
      moves (waiting l n w h) (inserting n w h) true b false refl refl (omega arith)
        (λ p. omega arith)
  next (waiting l n w h) false b =
      moves (waiting l n w h) (waiting l n w h) false b false refl refl (omega arith) (λ p. cc)
  next (inserting zero w h) a true =
      let fits : leb (message_size w) max_size ≡ true = ground (arith, h) in
      let short : (message_size w == max_size) ≡ false = ground (arith, h) in
      moves (inserting zero w h) (ended w h) a true true (rw (fits, short) refl) refl (omega arith)
        (λ p. omega arith)
  next (inserting (suc n) w h) a true =
      let fits : leb (message_size w) max_size ≡ true = ground (arith, h.0) in
      let full : (message_size w == max_size) ≡ true = ground (arith, h.0) in
      moves (inserting (suc n) w h) (waiting (message_size w) n (receive_round w) h.1) a true false
        (rw (fits, full) refl) refl (omega arith) (λ p. omega arith)
  next (inserting n w h) a false =
      moves (inserting n w h) (inserting n w h) a false false refl refl (omega arith) (and_false a)
  next (ended w h) a b =
      moves (ended w h) (ended w h) a b true refl refl (omega arith) (λ p. omega arith)

  at_end : (ph : Phase) → rank ph ≡ 0 → state_of ph ≡ goal ph
  unfolding rank state_of goal
  at_end (ended w h) e = refl
  at_end (inserting n w h) e = absurd (omega (arith, e))
  at_end (waiting l n w h) e = absurd (omega (arith, e))

  receive_lem :
      (n : ℕ) (w : W) (ps : List (Bool × Bool))
      → Messages n w
      → 2 * n + 2 ≤ ready ps
      → polls (receive_execute particles) ps (receive_init particles (new_receive_task max_size) w)
        ≡ some (received_all n w)
  unfolding receive_init state_of rank goal
  receive_lem n w ps h enough =
      let (e, run, same, less) =
        arrive (receive_execute particles) state_of rank goal next ps (waiting 0 n w h) in
      run ∙ ap some (at_end e (omega (arith, less, enough)) ∙ same)

module _ {ℓ} {V W : Type ℓ} (sender : SendingParticles V) (receiver : ReceivingParticles W)
    (max_size : ℕ) where
  -- Each message arrives with the size that the sender's stack had in that round.
  abbrev pub Delivers : ℕ → V → W → Type 0
  Delivers zero v w = message_size receiver max_size w ≡ stack_size sender max_size v
  Delivers (suc n) v w =
      (message_size receiver max_size w ≡ stack_size sender max_size v)
      × Delivers n (send_round sender max_size v) (receive_round receiver max_size w)

  delivered :
      (n : ℕ) (v : V) (w : W)
      → Rounds sender max_size n v
      → Delivers n v w
      → Messages receiver max_size n w
  delivered zero v w h d = omega (arith, h, d)
  delivered (suc n) v w h d = (
    d.0 ∙ h.0,
    delivered n (send_round sender max_size v) (receive_round receiver max_size w) h.1 d.1,
  )

  -- Whatever the calls do with the particles: if `n` rounds of the sender fill its stack and the next
  -- one does not, each message arrives with the size of the stack, and of the polls of both tasks
  -- enough find their events finished, then no assertion fails and both tasks finish. The sender has
  -- bashed and sent, and the receiver has received and inserted, in exactly these `n + 1` rounds, in
  -- order, and both note the size of the last one.
  pub exchange_lem :
      (n : ℕ) (v : V) (w : W) (ps qs : List (Bool × Bool))
      → Rounds sender max_size n v
      → Delivers n v w
      → 2 * n + 3 ≤ ready ps
      → 2 * n + 2 ≤ ready qs
      → (polls (send_execute sender) ps (send_init sender (new_send_task max_size) v)
          ≡ some (sent_all sender max_size n v))
        × (polls (receive_execute receiver) qs (receive_init receiver (new_receive_task max_size) w)
            ≡ some (received_all receiver max_size n w))
  exchange_lem n v w ps qs h d enough many = (
    send_lem sender max_size n v ps h enough,
    receive_lem receiver max_size n w qs (delivered n v w h d) many,
  )
