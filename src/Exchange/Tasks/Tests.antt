-- ===== src/Exchange/Tasks/Tests.antt =====
-- Eight particles, in rounds of three. The sender keeps what is left, the stack and the messages; the
-- receiver the messages to come, the one that has come, and what it has inserted.
use piconalpaka.Prelude.{
  ℕ, ◌+◌, ◌-◌, Bool, true, false, ◌≡◌, refl, min, List, [], ◌∷◌, ◌++◌, some, arith,
}
use piconalpaka.Exchange.Tasks.{
  SendingParticles, ReceivingParticles, new_send_task, send_init, send_execute, new_receive_task,
  receive_init, receive_execute,
}
use piconalpaka.Exchange.Tasks.Rounds.{polls, ready}
use piconalpaka.Exchange.Tasks.Send.{sent_all}
use piconalpaka.Exchange.Tasks.Receive.{received_all, exchange_lem}

abbrev sender : SendingParticles (ℕ × ℕ × List ℕ)
sender = record {
  bash_particles = λ w. (w.0 - 3, min w.0 3, w.2);
  device_size = λ w. w.1;
  async_send = λ w. (w.0, w.1, w.2 ++ w.1 ∷ []);
}

abbrev arrive_first : List ℕ → ℕ → ℕ × List ℕ × ℕ
arrive_first [] inserted = (0, [], inserted)
arrive_first (x ∷ xs) inserted = (x, xs, inserted)

abbrev receiver : ReceivingParticles (ℕ × List ℕ × ℕ)
receiver = record {
  async_receive = λ w. arrive_first w.1 w.2;
  host_size = λ w. w.0;
  insert_particles = λ w. (0, w.1, w.2 + w.0);
}

abbrev some_polls : List (Bool × Bool)
some_polls =
    (true, true)
    ∷ (true, false)
    ∷ (true, true)
    ∷ (true, true)
    ∷ (false, true)
    ∷ (true, true)
    ∷ (true, true)
    ∷ (true, true)
    ∷ (true, true)
    ∷ []

exchange_example :
    (polls (send_execute sender) some_polls (send_init sender (new_send_task 3) (8, 0, []))
      ≡ some (sent_all sender 3 2 (8, 0, [])))
    × (polls
          (receive_execute receiver)
          some_polls
          (receive_init receiver (new_receive_task 3) (0, 3 ∷ 3 ∷ 2 ∷ [], 0))
        ≡ some (received_all receiver 3 2 (0, 3 ∷ 3 ∷ 2 ∷ [], 0)))
unfolding ready
exchange_example =
    exchange_lem sender receiver 3 2 (8, 0, []) (0, 3 ∷ 3 ∷ 2 ∷ [], 0) some_polls some_polls
      (refl, (refl, omega arith)) (refl, (refl, refl)) (omega arith) (omega arith)
