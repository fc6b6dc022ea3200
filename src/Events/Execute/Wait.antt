-- ===== src/Events/Execute/Wait.antt =====
-- `waitForFinished` of src/libPMacc/include/eventSystem/Manager.tpp.
use piconalpaka.Prelude.{
  ℕ, zero, suc, ◌+◌, Bool, true, false, Option, none, some, mem, ◌≡◌, ◌⊎◌, arith, refl, sym, ap,
  ◌∙◌, subst, Bool-cases, inl, inr,
}
use piconalpaka.Events.{System, is_finished}
use piconalpaka.Events.Execute.{execute, wait_passive, wait_active, wait_for_finished}
use piconalpaka.Events.Execute.Poll.{polls, execute_lem, Shrinks, Awaits-last}
use piconalpaka.Events.Execute.Rounds.{
  Ended, Round, round_lem, passive_some, active_mem, passive_ended, active_ended, Shrinks_trans,
  Round_Shrinks,
}
use piconalpaka.Events.Invariant.{IsConsistent}
use piconalpaka.Events.Awaits.{Awaits, Awaits-some, self, is_finished_lem, get_itask_lem}

module _ (done : ℕ → ℕ → Bool) (id : ℕ) where
  looks : ℕ → ℕ → System → Option (Bool × System)
  looks round = polls (done round)

  -- In the last round
  no_longer :
      (round : ℕ) (s u : System)
      → Round (done round) s u
      → ((j : ℕ) → Awaits s.objects id j → done (round + 0) j ≡ true)
      → mem id u.passive_tasks ≡ true
      → ⊥
  no_longer round s u r h m =
      let a = Awaits-some u r.0 (suc id) id (omega arith) (ground (arith, r.0.passive id, m)) in
      let b = (r.3 id a.0).0 a.1 in
      ground (arith, b.1, subst (λ k. done k a.0 ≡ true) (same round) (h a.0 b.0))
    where
      same : (k : ℕ) → k + 0 ≡ k
      same k = omega arith

  later :
      (n round : ℕ) (s u : System)
      → Round (done round) s u
      → ((j : ℕ) → Awaits s.objects id j → done (round + suc n) j ≡ true)
      → (j : ℕ) → Awaits u.objects id j
      → done (suc round + n) j ≡ true
  later n round s u r h j a =
      let same : round + suc n ≡ suc round + n = omega arith in
      subst (λ k. done k j ≡ true) same (h j ((r.3 id j).0 a).0)

  passive-Round :
      (n round size : ℕ) (s u : System)
      → IsConsistent s
      → size ≡ s.global_id
      → mem id s.passive_tasks ≡ true
      → execute (looks round) size 0 s ≡ some (false, u)
      → Round (done round) s u
      → ((mem id u.passive_tasks ≡ true) × Ended u id (wait_passive looks n size (suc round) id u))
        ⊎ (mem id u.passive_tasks ≡ false)
      → Ended s id (wait_passive looks (suc n) size round id s)
  unfolding wait_passive
  passive-Round n round size s u c z m g r (inl (x, w)) = (
    w.0,
    rw (wait_passive, g) (rw (passive_some id u) (rw x w.1)),
    w.2,
    w.3,
    w.4,
    Shrinks_trans s u w.0 (Round_Shrinks (done round) s u r) w.5,
  )
  passive-Round n round size s u c z m g r (inr x) = (
    u,
    rw (wait_passive, g) (rw (passive_some id u) (rw x refl)),
    r.0,
    r.1,
    passive_ended s u id c r.0 (Round_Shrinks (done round) s u r) m x,
    Round_Shrinks (done round) s u r,
  )

  wait_passive_lem :
      (n round size : ℕ) (s : System)
      → IsConsistent s
      → s.iter ≡ none
      → size ≡ s.global_id
      → mem id s.passive_tasks ≡ true
      → ((j : ℕ) → Awaits s.objects id j → done (round + n) j ≡ true)
      → Ended s id (wait_passive looks (suc n) size round id s)
  unfolding looks
  wait_passive_lem zero round size s c e z m h =
      let (u, g, r) = round_lem (done round) s c e in
      passive-Round zero round size s u c z m (ap (λ k. execute (looks round) k 0 s) z ∙ g) r
        (elim (Bool-cases (mem id u.passive_tasks)) [
          | inl x ↦ absurd (no_longer round s u r h x)
          | inr x ↦ inr x
        ])
  wait_passive_lem (suc n) round size s c e z m h =
      let (u, g, r) = round_lem (done round) s c e in
      passive-Round (suc n) round size s u c z m (ap (λ k. execute (looks round) k 0 s) z ∙ g) r
        (elim (Bool-cases (mem id u.passive_tasks)) [
          | inl x ↦ inl (
            x,
            wait_passive_lem n (suc round) size u r.0 r.1 (z ∙ sym r.2) x (later n round s u r h),
          )
          | inr x ↦ inr x
        ])

  -- A task that is not connected, and the answer of `execute` for it
  active-Round :
      (n round size : ℕ) (s : System)
      → IsConsistent s
      → s.iter ≡ none
      → size ≡ s.global_id
      → mem id s.tasks ≡ true
      → ((u : System)
          → Round (done round) s u
          → mem id u.tasks ≡ true
          → Ended u id (wait_active looks n size (suc round) id u))
      → Ended s id (wait_active looks (suc n) size round id s)
  unfolding wait_active looks
  active-Round n round size s c e z m more =
      let (r, g, cu, it, ids, answers) = execute_lem (done round) id s c e in
      let g' = ap (λ k. execute (looks round) k id s) z ∙ g in
      elim answers [
        | inr v ↦
            let (b, x, y, fewer, stays) = v in
            (
              r.1,
              rw (wait_active, g') (rw b refl),
              cu,
              it,
              active_ended s r.1 id c cu fewer m y,
              fewer,
            )
        | inl v ↦
            let (b, keeps) = v in
            let round' : Round (done round) s r.1 = (cu, it, ids, keeps) in
            let fewer = Round_Shrinks (done round) s r.1 round' in
            elim (Bool-cases (mem id r.1.tasks)) [
              | inl x ↦
                  let w = more r.1 round' x in
                  (
                    w.0,
                    rw (wait_active, g') (rw (b, active_mem id r.1) (rw x w.1)),
                    w.2,
                    w.3,
                    w.4,
                    Shrinks_trans s r.1 w.0 fewer w.5,
                  )
              | inr x ↦ (
                r.1,
                rw (wait_active, g') (rw (b, active_mem id r.1) (rw x refl)),
                cu,
                it,
                active_ended s r.1 id c cu fewer m x,
                fewer,
              )
            ]
      ]

  wait_active_lem :
      (n round size : ℕ) (s : System)
      → IsConsistent s
      → s.iter ≡ none
      → size ≡ s.global_id
      → mem id s.tasks ≡ true
      → ((j : ℕ) → Awaits s.objects id j → done (round + n) j ≡ true)
      → Ended s id (wait_active looks (suc n) size round id s)
  wait_active_lem zero round size s c e z m h = active-Round zero round size s c e z m (λ u r x.
      let a : Awaits u.objects id id = self (ground (arith, x, r.0.actives id)) in
      let b = (r.3 id id).0 a in
      absurd (ground (arith, b.1, subst (λ k. done k id ≡ true) (same round) (h id b.0))))
    where
      same : (k : ℕ) → k + 0 ≡ k
      same k = omega arith
  wait_active_lem (suc n) round size s c e z m h =
      active-Round (suc n) round size s c e z m (λ u r x.
        wait_active_lem n (suc round) size u r.0 r.1 (z ∙ sym r.2) x (later n round s u r h))

  -- Where the maps, the objects and the observers are consistent, no call of `execute` is under way,
  -- to look at a task changes nothing, and the tasks that the handle waits for are done in
  -- round `n`: `waitForFinished` ends in round `n` at the latest, with the handle finished,
  -- accesses no deleted object, keeps the consistency, and makes each handle wait for those of its tasks
  -- that still live.
  pub wait_for_finished_lem :
      (n : ℕ) (s : System)
      → IsConsistent s
      → s.iter ≡ none
      → ((j : ℕ) → Awaits s.objects id j → done n j ≡ true)
      → (u : System) × (wait_for_finished (λ round. polls (done round)) (suc n) s.global_id id s
          ≡ some u)
        × IsConsistent u
        × (u.iter ≡ none)
        × (is_finished id u ≡ true)
        × Shrinks s u
  unfolding wait_for_finished looks is_finished
  wait_for_finished_lem n s c e h = elim (Bool-cases (mem id s.passive_tasks)) [
    | inl x ↦
        let w =
          wait_passive_lem n 0 s.global_id s c e refl x
            (λ j a. subst (λ k. done k j ≡ true) zero_n (h j a)) in
        (
          w.0,
          rw (wait_for_finished, passive_some id s) (rw x w.1),
          w.2,
          w.3,
          (is_finished_lem w.0 id w.2).1 w.4,
          w.5,
        )
    | inr x ↦ elim (Bool-cases (mem id s.tasks)) [
      | inl y ↦
          let w =
            wait_active_lem n 0 s.global_id s c e refl y
              (λ j a. subst (λ k. done k j ≡ true) zero_n (h j a)) in
          (
            w.0,
            rw (wait_for_finished, passive_some id s) (rw (x, active_mem id s) (rw y w.1)),
            w.2,
            w.3,
            (is_finished_lem w.0 id w.2).1 w.4,
            w.5,
          )
      | inr y ↦ (
        s,
        rw (wait_for_finished, passive_some id s) (rw (x, active_mem id s) (rw y refl)),
        c,
        e,
        rw (is_finished, get_itask_lem id s) (rw (x, y) refl),
        λ e j. (λ a. (a, Awaits-last a), λ a. a.0),
      )
    ]
  ]
    where
      zero_n : n ≡ 0 + n
      zero_n = omega arith
