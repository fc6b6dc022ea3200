-- ===== src/Buffers/Grid/Again.antt =====
-- The errors of `addExchange` of src/libPMacc/include/memory/buffers/GridBuffer.hpp.
use piconalpaka.Prelude.{
  ℕ, zero, suc, ◌+◌, ◌<◌, ◌≤◌, ◌≡◌, true, false, not, ◌&&◌, Option, none, some, List, ◌==◌,
  if◌then◌else◌, arith, refl, ◌∙◌, Bool-cases, inl, inr, ◌>>=◌, subst,
}
use piconalpaka.Dimensions.{DataSpace3}
use piconalpaka.Mask.{Mask, is_set, join, mirrored_exchange_type}
use piconalpaka.Mask.Mirror.{opposite}
use piconalpaka.Buffers.Exchanges.{GridLayout, send_exchange, receive_exchange}
use piconalpaka.Buffers.Grid.{
  ExchangeIntern, GridBuffer, is_some, is_tag_uniqu, uniq_communication_tag, add_direction,
  register_direction, add_from, add_exchange,
}
use piconalpaka.Buffers.Grid.Tables.{mirrored}

-- Every result has the property.
data All {A : Type 0} (P : A → Type 0) : Option A → Type 0 where
  fails : All P none
  gives : {a : A} → P a → All P (some a)

module _ {A B : Type 0} (P : B → Type 0) where
  bind-All : (o : Option A) (k : A → Option B) → ((a : A) → All P (k a)) → All P (o >>= k)
  bind-All none k h = fails
  bind-All (some a) k h = h a

  then-All :
      (Q : A → Type 0) (o : Option A) (k : A → Option B)
      → All Q o
      → ((a : A) → Q a → All P (k a))
      → All P (o >>= k)
  then-All Q none k _ h = fails
  then-All Q (some a) k (gives q) h = h a q

then-none :
    {A B : Type 0} (Q : A → Type 0) (o : Option A) (k : A → Option B)
    → All Q o
    → ((a : A) → Q a → k a ≡ none)
    → (o >>= k) ≡ none
then-none Q none k _ h = refl
then-none Q (some a) k (gives q) h = h a q

module _ (grid_layout : GridLayout) (guarding_cells : DataSpace3) (data_place tag : ℕ) where
  module _ (j : ℕ) (x : ExchangeIntern) where
    -- The send exchange in direction `j` stays.
    abbrev Stays : GridBuffer → Type 0
    Stays h = h.send_exchanges j ≡ some x

    abbrev StaysWith : GridBuffer × List ℕ → Type 0
    StaysWith s = Stays s.0

    add_direction-Stays :
        (i : ℕ) (g : GridBuffer)
        → (j == i) ≡ false
        → Stays g
        → All Stays (add_direction grid_layout guarding_cells data_place tag i g)
    unfolding add_direction
    add_direction-Stays i g other h =
        then-All Stays Stays
          (if is_some (g.send_exchanges i)
            then none
            else some (record g { has_one_exchange = true }))
          _
          (elim (Bool-cases (is_some (g.send_exchanges i))) [
            | inl e ↦ rw e fails
            | inr e ↦ rw e (gives h)
          ])
          (λ g1 q. bind-All Stays (send_exchange grid_layout guarding_cells data_place i) _ (λ sent.
            bind-All Stays (mirrored_exchange_type i) _ (λ recvex.
              bind-All Stays (receive_exchange grid_layout guarding_cells data_place recvex) _
                (λ received. gives (rw other q)))))

    register_direction-Stays :
        (i : ℕ) (g : GridBuffer) (tags : List ℕ)
        → (j == i) ≡ false
        → Stays g
        → All StaysWith (register_direction grid_layout guarding_cells data_place tag i (g, tags))
    unfolding register_direction
    register_direction-Stays i g tags other h =
        let add = λ (ts : List ℕ).
          then-All StaysWith Stays (add_direction grid_layout guarding_cells data_place tag i g)
            (λ k. some (k, ts)) (add_direction-Stays i g other h) (λ k q. gives q) in
        elim (Bool-cases g.has_one_exchange) [
          | inl e ↦ simp e (add tags)
          | inr e ↦
              let r = is_tag_uniqu (uniq_communication_tag tag i) tags in
              elim (Bool-cases r.0) [ inl f ↦ simp (e, f) (add r.1) | inr f ↦ simp (e, f) fails ]
        ]

    register_direction-none :
        (g : GridBuffer) (tags : List ℕ)
        → Stays g
        → register_direction grid_layout guarding_cells data_place tag j (g, tags) ≡ none
    unfolding register_direction add_direction
    register_direction-none g tags h = elim (Bool-cases g.has_one_exchange) [
      | inl e ↦ simp (e, h) refl
      | inr e ↦ elim (Bool-cases (is_tag_uniqu (uniq_communication_tag tag j) tags).0) [
        | inl f ↦ simp (e, f, h) refl
        | inr f ↦ simp (e, f) refl
      ]
    ]

    add_from-none :
        (count i : ℕ) (send : Mask) (g : GridBuffer) (tags : List ℕ)
        → i ≤ j
        → j < count + i
        → is_set send j ≡ true
        → Stays g
        → add_from grid_layout guarding_cells data_place tag count i send (g, tags) ≡ none
    unfolding add_from
    add_from-none zero i send g tags le lt on h = absurd (omega (arith, le, lt))
    add_from-none (suc count) i send g tags le lt on h = elim (Bool-cases (j == i)) [
      | inl e ↦
          let q : j ≡ i = ground (arith, e) in
          subst
            (λ k.
              add_from grid_layout guarding_cells data_place tag (suc count) k send (g, tags)
              ≡ none)
            q (rw (add_from, on, register_direction-none g tags h) refl)
      | inr e ↦
          let above : suc i ≤ j = ground (arith, e, le) in
          let below : j < count + suc i = omega (arith, lt) in
          elim (Bool-cases (is_set send i)) [
            | inl f ↦
                rw (add_from, f)
                  (then-none StaysWith
                    (register_direction grid_layout guarding_cells data_place tag i (g, tags)) _
                    (register_direction-Stays i g tags e h)
                    (λ a q. add_from-none count (suc i) send a.0 a.1 above below on q))
            | inr f ↦ rw (add_from, f) (add_from-none count (suc i) send g tags above below on h)
          ]
    ]

  -- `addExchange` fails for a mask that contains the mirror of a direction, from 1 to 26, which has a send
  -- exchange already.
  pub add_exchange_again :
      (receive : Mask) (g : GridBuffer) (tags : List ℕ) (ex : ℕ) (x : ExchangeIntern)
      → 0 < ex
      → ex < 27
      → is_set receive (opposite ex) ≡ true
      → g.send_exchanges ex ≡ some x
      → add_exchange grid_layout guarding_cells data_place tag receive (g, tags) ≡ none
  unfolding add_exchange
  add_exchange_again receive g tags ex x low high on h =
      let (all, all_eq, _) = mirrored (join g.receive_mask receive) in
      let (send, send_eq, set) = mirrored receive in
      elim (Bool-cases (g.has_one_exchange && not (tag == g.last_used_communication_tag))) [
        | inl e ↦ rw e refl
        | inr e ↦
            rw (e, all_eq, send_eq)
              (add_from-none ex x 26 1 send
                (record g {
                  last_used_communication_tag = tag;
                  receive_mask = join g.receive_mask receive;
                  send_mask = all;
                })
                tags (omega (arith, low)) (omega (arith, high)) (set ex low high ∙ on) h)
      ]
