-- ===== src/Events/Execute/Above.antt =====
-- The iterator of `execute` in src/libPMacc/include/eventSystem/Manager.tpp.
use piconalpaka.Prelude.{
  ℕ, ◌≤◌, ◌<◌, Bool, true, false, Option, none, some, List, [], ◌∷◌, ltb, leb, if◌then◌else◌, mem,
  ◌≡◌, arith, sym, subst, Bool-cases, inl, inr,
}
use piconalpaka.Events.Execute.{above, least}

-- The end of the keys, or the next one
abbrev pub Above : ℕ → List ℕ → Option ℕ → Type 0
Above k is none = (j : ℕ) → mem j is ≡ true → j ≤ k
Above k is (some i) = (mem i is ≡ true) × (k < i) × ((j : ℕ) → mem j is ≡ true → k < j → i ≤ j)

Above-step :
    (k i : ℕ) (is : List ℕ) (o : Option ℕ)
    → Above k is o
    → Above k (i ∷ is) (if ltb k i then some (least i o) else o)
Above-step k i is none h = elim (Bool-cases (ltb k i)) [
  | inl e ↦ rw e (ground arith, ground (arith, e), λ j m l. ground (arith, h j, m, l))
  | inr e ↦ rw e (λ j m. ground (arith, h j, m, e))
]
Above-step k i is (some n) h = elim (Bool-cases (ltb k i)) [
  | inl e ↦ rw e (elim (Bool-cases (ltb n i)) [
    | inl e' ↦
        let q : least i (some n) ≡ n = ground (arith, e') in
        subst (λ x. Above k (i ∷ is) (some x)) (sym q)
          (ground (arith, h.0), h.1, λ j m l. ground (arith, h.2 j, m, l, e'))
    | inr e' ↦
        let q : least i (some n) ≡ i = ground (arith, e') in
        subst (λ x. Above k (i ∷ is) (some x)) (sym q)
          (ground arith, ground (arith, e), λ j m l. ground (arith, h.2 j, m, l, e'))
  ])
  | inr e ↦ rw e (ground (arith, h.0), h.1, λ j m l. ground (arith, h.2 j, m, l, e))
]

pub above_lem : (k : ℕ) (is : List ℕ) → Above k is (above k is)
unfolding above
above_lem k [] = λ j h. absurd (ground (arith, h))
above_lem k (i ∷ is) = Above-step k i is (above k is) (above_lem k is)

-- What is still to be visited
abbrev pub left : Option ℕ → ℕ → Bool
left none j = false
left (some k) j = leb k j

left-Above :
    (k : ℕ) (is : List ℕ) (j : ℕ) (o : Option ℕ)
    → Above k is o
    → mem j is ≡ true
    → left o j ≡ ltb k j
left-Above k is j none h m = ground (arith, h j m)
left-Above k is j (some i) h m = elim (Bool-cases (ltb k j)) [
  | inl e ↦ ground (arith, e, h.2 j m (ground (arith, e)))
  | inr e ↦ ground (arith, e, h.1)
]

pub left-above : (k : ℕ) (is : List ℕ) (j : ℕ) → mem j is ≡ true → left (above k is) j ≡ ltb k j
left-above k is j m = left-Above k is j (above k is) (above_lem k is) m
