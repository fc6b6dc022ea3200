-- ===== src/Exchange/Tests.antt =====
-- Two threads that push 2 elements each onto a stack of 3
use piconalpaka.Prelude.{ℕ, zero, suc, ◌<◌, refl, arith}
use piconalpaka.Dimensions.{cell3}
use piconalpaka.Exchange.{Pushing, start, push_n, turn}
use piconalpaka.Exchange.Family.{total}
use piconalpaka.Exchange.Threads.{waiting}
use piconalpaka.Exchange.Invariant.{IsPushing, Reach, here, later}
use piconalpaka.Exchange.Keep.{turn-IsPushing}
use piconalpaka.Exchange.Slots.{Starts, IsDone, Filled, push_n_lem, Starts-IsPushing}

abbrev two_pushers : Pushing
two_pushers = record {
  stack = record {
    current_size = 0;
    index_size = 0;
    indices = λ i. record { super_cell = cell3 0 0 0; start_idx = 0; count = 0 };
  };
  threads = λ i. start 2 (cell3 i 0 0);
}

two_pushers-Starts : Starts 3 2 two_pushers
unfolding total
two_pushers-Starts = record {
  empty = refl;
  no_index = refl;
  at_start = λ i l. tt;
  fits = omega arith;
  few = omega arith;
}

-- The second thread adds before the first one goes on.
abbrev interleaved : Pushing
interleaved = turn 3 0 (turn 3 1 (turn 3 1 (turn 3 0 (turn 3 1 (turn 3 1 (turn 3 0 two_pushers))))))

interleaved-Reach : Reach 3 2 two_pushers interleaved
interleaved-Reach = later 0 (omega arith) (
    later 1 (omega arith) (
      later 1 (omega arith) (
        later 0 (omega arith)
          (later 1 (omega arith) (later 1 (omega arith) (later 0 (omega arith) here))))))

all-IsDone : (i : ℕ) → i < 2 → IsDone (interleaved.threads i)
unfolding turn push_n
all-IsDone zero l = tt
all-IsDone (suc zero) l = tt
all-IsDone (suc (suc i)) l = absurd (omega (arith, l))

turn-IsPushing_example : IsPushing 3 (total waiting 2 two_pushers.threads) 2 (turn 3 1 two_pushers)
turn-IsPushing_example = turn-IsPushing (Starts-IsPushing two_pushers-Starts) 1 (omega arith)

push_n_example : Filled 3 (total waiting 2 two_pushers.threads) 2 interleaved
push_n_example = push_n_lem two_pushers-Starts interleaved-Reach all-IsDone
