-- ===== src/Exchange/Tasks/Rounds.antt =====
-- Polling the tasks of src/libPMacc/include/particles/tasks, as `execute` of the manager does.
use piconalpaka.Prelude.{
  ℕ, suc, ◌-◌, ◌≤◌, ◌≡◌, Bool, true, false, ◌&&◌, if◌then◌else◌, Option, some, List, [], ◌∷◌, arith,
  refl, ap, ◌∙◌, Bool-cases, inl, inr, ◌>>=◌,
}

-- The polls at which both events of the task have finished
unfoldable pub ready : List (Bool × Bool) → ℕ
ready [] = 0
ready (p ∷ ps) = if p.0 && p.1 then suc (ready ps) else ready ps

pub and_false : {P : Type 0} (b : Bool) → (b && false) ≡ true → P
and_false true p = cc
and_false false p = cc

module _ {ℓ} {S : Type ℓ} (execute : Bool → Bool → S → Option (Bool × S)) where
  -- `executeIntern`, with what has finished at each poll
  unfoldable pub polls : List (Bool × Bool) → S → Option S
  polls [] s = some s
  polls (p ∷ ps) s = execute p.0 p.1 s >>= λ r. polls ps r.1

  module _ {Phase : Type ℓ} (state_of : Phase → S) (rank : Phase → ℕ) {G : Type ℓ}
      (goal : Phase → G) where
    -- A poll leads to a phase with the same goal, which is nearer to the end if both events have
    -- finished.
    pub record Next (ph : Phase) (a b : Bool) : Type ℓ where
      pub is_done : Bool
      pub phase : Phase
      pub returns : execute a b (state_of ph) ≡ some (is_done, state_of phase)
      pub same : goal phase ≡ goal ph
      pub closer : rank phase ≤ rank ph
      pub progress : (a && b) ≡ true → rank phase ≤ rank ph - 1

    pub arrive :
        ((ph : Phase) (a b : Bool) → Next ph a b)
        → (ps : List (Bool × Bool)) (ph : Phase)
        → (end_ : Phase) × (polls ps (state_of ph) ≡ some (state_of end_))
          × (goal end_ ≡ goal ph)
          × (rank end_ ≤ rank ph - ready ps)
    unfolding polls ready
    arrive next [] ph = (ph, refl, refl, omega arith)
    arrive next (p ∷ ps) ph =
        let s = next ph p.0 p.1 in
        let (e, run, same, less) = arrive next ps s.phase in
        (
          e,
          ap (λ x. x >>= λ y. polls ps y.1) s.returns ∙ run,
          same ∙ s.same,
          elim (Bool-cases (p.0 && p.1)) [
            | inl b ↦ rw b (omega (arith, s.progress b, less))
            | inr b ↦ rw b (omega (arith, s.closer, less))
          ],
        )
