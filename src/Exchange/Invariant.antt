-- ===== src/Exchange/Invariant.antt =====
-- What holds of the pushing threads between two atomic operations.
use piconalpaka.Prelude.{ℕ, ◌+◌, ◌<◌, ◌≤◌, ◌≡◌, ◌≢◌, ◌⊎◌, some, min}
use piconalpaka.Exchange.{Pushing, turn}
use piconalpaka.Exchange.Family.{total}
use piconalpaka.Exchange.Threads.{
  first, behind, claimed, waiting, indexed, address, IsOver, IsFull, IsWritten,
}

-- `n` threads that ask for `all` elements of a stack of `max_size`
pub record IsPushing (max_size all n : ℕ) (s : Pushing) : Type 0 where
  pub small : max_size + all < 4294967296
  pub few : n + 1 < 4294967296
  pub room : s.stack.current_size + total waiting n s.threads ≤ max_size + all
  pub exact :
      (s.stack.current_size + total waiting n s.threads ≡ all) ⊎ (max_size ≤ s.stack.current_size)
  pub counted : total (claimed max_size) n s.threads + total waiting n s.threads ≤ all
  pub covered : total (claimed max_size) n s.threads ≡ min s.stack.current_size max_size
  pub ordered : (i : ℕ) → i < n → first max_size (s.threads i) ≤ behind max_size (s.threads i)
  pub within : (i : ℕ) → i < n → behind max_size (s.threads i) ≤ min s.stack.current_size max_size
  pub apart :
      (i j : ℕ)
      → i < n
      → j < n
      → i ≢ j
      → (behind max_size (s.threads i) ≤ first max_size (s.threads j))
        ⊎ (behind max_size (s.threads j) ≤ first max_size (s.threads i))
  pub full : (i : ℕ) → i < n → IsFull max_size s.stack (s.threads i)
  pub pending : max_size < s.stack.current_size → (i : ℕ) × (i < n) × IsOver (s.threads i)
  pub taken : s.stack.index_size ≡ total indexed n s.threads
  pub placed : (i a : ℕ) → i < n → address (s.threads i) ≡ some a → a < s.stack.index_size
  pub unique :
      (i j a : ℕ)
      → i < n
      → j < n
      → address (s.threads i) ≡ some a
      → address (s.threads j) ≡ some a
      → i ≡ j
  pub written : (i : ℕ) → i < n → IsWritten s.stack (s.threads i)

-- The threads take turns in any order.
pub data Reach (max_size n : ℕ) (s : Pushing) : Pushing → Type 0 where
  here : Reach max_size n s s
  later :
      {t : Pushing} (i : ℕ) → i < n → Reach max_size n s t → Reach max_size n s (turn max_size i t)
