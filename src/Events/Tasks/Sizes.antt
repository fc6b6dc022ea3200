-- ===== src/Events/Tasks/Sizes.antt =====
-- The sizes of the messages, and the polling of MPI: src/libPMacc/include/eventSystem/tasks.
use piconalpaka.Prelude.{
  suc, ◌*◌, ◌/◌, ◌%◌, ◌-◌, ltb, leb, ℤ, pos, negsuc, ◌⊎◌, inl, inr, Bool-cases, ◌∙◌, sym, subst, ap,
  ℕ, ◌≤◌, ◌<◌, arith, Bool, true, false, Option, none, some, List, [], ◌∷◌, ◌≡◌, refl,
  if◌then◌else◌, ◌>>=◌,
}
use native.Mathlib.Nat.{mul-div_cancel, mul-le-mul_right, div-lt_iff_lt-mul}
use piconalpaka.Events.Tasks.{
  recv_finished, TaskReceive, receive_event, receive_execute, sent_bytes, to_int, size_of_count,
  received_bytes, MpiTask, mpi_init, mpi_execute,
}

-- The answers of `executeIntern`, called once for each answer of `MPI_Test`
unfoldable pub mpi_polls : List Bool → MpiTask → Option (List Bool × MpiTask)
mpi_polls [] t = some ([], t)
mpi_polls (b ∷ bs) t =
    let rest = mpi_polls bs in
    mpi_execute (λ request. b) t >>= λ r. rest r.1 >>= λ q. some (r.0 ∷ q.0, q.1)

-- Each answer, once one has been true
abbrev pub latch : Bool → List Bool → List Bool
latch done [] = []
latch done (b ∷ bs) = let now = if done then true else b in now ∷ latch now bs

mpi_done :
    (request : Option ℕ) (bs : List Bool)
    → (t : MpiTask) × (mpi_polls bs (record { is_finished = true; request = request })
        ≡ some (latch true bs, t))
unfolding mpi_polls mpi_execute
mpi_done request [] = (record { is_finished = true; request = request }, refl)
mpi_done request (b ∷ bs) = let r = mpi_done request bs in (r.0, rw r.1 refl)

mpi_open :
    (k : ℕ) (bs : List Bool)
    → (t : MpiTask) × (mpi_polls bs (record { is_finished = false; request = some k })
        ≡ some (latch false bs, t))
unfolding mpi_polls mpi_execute
mpi_open k [] = (record { is_finished = false; request = some k }, refl)
mpi_open k (true ∷ bs) = let r = mpi_done none bs in (r.0, rw r.1 refl)
mpi_open k (false ∷ bs) = let r = mpi_open k bs in (r.0, rw r.1 refl)

-- A message whose request `init` has made: however often `executeIntern` is called, it never finds
-- the request missing, and it answers true from the first true answer of `MPI_Test` on.
pub mpi_polls_lem :
    (k : ℕ) (bs : List Bool) (old : Option ℕ)
    → (t : MpiTask) × (mpi_polls bs (mpi_init k (record { is_finished = false; request = old }))
        ≡ some (latch false bs, t))
unfolding mpi_init
mpi_polls_lem k bs old = mpi_open k bs

-- What MPI documents: a message that fits into the buffer of the receiver arrives, one that does not fit
-- is an error of the receiver, and a negative count one of the sender.
pub record Mpi (mpi : ℤ → ℤ → Option ℤ) : Type 0 where
  pub delivers : (s r : ℕ) → s ≤ r → mpi (pos s) (pos r) ≡ some (pos s)
  pub truncates : (s r : ℕ) → r < s → mpi (pos s) (pos r) ≡ none
  pub refuses : (s : ℕ) (r : ℤ) → mpi (negsuc s) r ≡ none

-- The elements that `TaskReceive` counts
abbrev pub counted : Bool → ℕ → ℕ → TaskReceive → ℕ
counted double size bytes t =
    (receive_event double size recv_finished (some bytes) t).new_buffer_size

counted_lem : (double : Bool) (size b : ℕ) (t : TaskReceive) → counted double size b t ≡ b / size
unfolding receive_event receive_execute
counted_lem true size b t = refl
counted_lem false size b t = refl

to_int_cases :
    (n : ℕ)
    → ((n % 4294967296 < 2147483648) × (to_int n ≡ pos (n % 4294967296)))
      ⊎ (to_int n ≡ negsuc (4294967295 - n % 4294967296))
unfolding to_int
to_int_cases n = elim (Bool-cases (ltb (n % 4294967296) 2147483648)) [
  | inl e ↦ inl (ground (arith, e), rw e refl)
  | inr e ↦ inr (rw e refl)
]

to_int-lt : (n : ℕ) → n < 2147483648 → to_int (n % 18446744073709551616) ≡ pos n
unfolding to_int
to_int-lt n h =
    let e : n % 18446744073709551616 % 4294967296 ≡ n = omega (arith, h) in
    let l : ltb n 2147483648 ≡ true = ground (arith, h) in rw (e, l) refl

received_lem :
    (mpi : ℤ → ℤ → Option ℤ) (size n capacity : ℕ) (s r : ℤ) (o : Option ℤ)
    → to_int (sent_bytes n size) ≡ s
    → to_int (sent_bytes capacity size) ≡ r
    → mpi s r ≡ o
    → received_bytes mpi size n capacity ≡ size_of_count o
unfolding received_bytes
received_lem mpi size n capacity s r o p q e =
    ap size_of_count (ap (λ x. mpi x (to_int (sent_bytes capacity size))) p ∙ ap (mpi s) q ∙ e)

-- A message that does not fit, whose count may have been shortened to one that does
too_long :
    (mpi : ℤ → ℤ → Option ℤ)
    → Mpi mpi
    → (double : Bool) (size n capacity : ℕ) (t : TaskReceive) → 0 < size
    → n * size < 18446744073709551616
    → capacity * size < 2147483648
    → capacity < n
    → capacity * size < n * size
    → (received_bytes mpi size n capacity ≡ none)
      ⊎ ((4294967296 ≤ n * size)
          × ((b : ℕ) × (received_bytes mpi size n capacity ≡ some b)
              × (counted double size b t < n)))
too_long mpi laws double size n capacity t h big small lt more =
    let r = n * size % 4294967296 in
    let low : n * size % 18446744073709551616 % 4294967296 ≡ r = omega (arith, big) in
    let room = to_int-lt (capacity * size) small in
    let arrives = received_lem mpi size n capacity in
    elim (to_int_cases (n * size % 18446744073709551616)) [
      | inr e ↦
          let m = 4294967295 - n * size % 18446744073709551616 % 4294967296 in
          inl (
            arrives (negsuc m) (pos (capacity * size)) none e room
              (laws.refuses m (pos (capacity * size))))
      | inl e ↦
          let count = e.1 ∙ ap pos low in
          elim (Bool-cases (leb r (capacity * size))) [
            | inl f ↦
                let fits : r ≤ capacity * size = ground (arith, f) in
                inr (
                  omega (arith, fits, more),
                  (
                    r,
                    arrives (pos r) (pos (capacity * size)) (some (pos r)) count room
                        (laws.delivers r (capacity * size) fits),
                    subst (λ k. k < n) (sym (counted_lem double size r t))
                        ((div-lt_iff_lt-mul h).1 (omega (arith, fits, more))),
                  ),
                )
            | inr f ↦ inl (
                arrives (pos r) (pos (capacity * size)) none count room
                  (laws.truncates r (capacity * size) (ground (arith, f))))
          ]
    ]

-- For elements of at least one byte, a message below 2^64 bytes and a host buffer below 2^31 bytes at the
-- receiver, with the conversions between `size_t` and `int`: a message that fits into the buffer
-- arrives, and `TaskReceive` counts the elements that the sender had. For any other one MPI reports an
-- error, or the message has at least 2^32 bytes, arrives shortened, and fewer elements are counted.
pub receive-sent_bytes :
    (mpi : ℤ → ℤ → Option ℤ)
    → Mpi mpi
    → (double : Bool) (size n capacity : ℕ) (t : TaskReceive) → 0 < size
    → n * size < 18446744073709551616
    → capacity * size < 2147483648
    → ((n ≤ capacity)
        × ((b : ℕ) × (received_bytes mpi size n capacity ≡ some b) × (counted double size b t ≡ n)))
      ⊎ ((capacity < n)
          × ((received_bytes mpi size n capacity ≡ none)
              ⊎ ((4294967296 ≤ n * size)
                  × ((b : ℕ) × (received_bytes mpi size n capacity ≡ some b)
                      × (counted double size b t < n)))))
receive-sent_bytes mpi laws double size n capacity t h big small =
    let room = to_int-lt (capacity * size) small in
    elim (Bool-cases (leb n capacity)) [
      | inl e ↦
          let le : n ≤ capacity = ground (arith, e) in
          let less : n * size ≤ capacity * size = mul-le-mul_right size le in
          inl (
            le,
            (
              n * size,
              received_lem mpi size n capacity (pos (n * size)) (pos (capacity * size))
                  (some (pos (n * size))) (to_int-lt (n * size) (omega (arith, less, small))) room
                  (laws.delivers (n * size) (capacity * size) less),
              counted_lem double size (n * size) t ∙ mul-div_cancel n h,
            ),
          )
      | inr e ↦
          let lt : capacity < n = ground (arith, e) in
          let more : suc capacity * size ≤ n * size = mul-le-mul_right size lt in
          inr
            (lt, too_long mpi laws double size n capacity t h big small lt (omega (arith, more, h)))
    ]
