-- ===== src/Buffers/Grid/Add.antt =====
-- What `addExchange` of src/libPMacc/include/memory/buffers/GridBuffer.hpp leaves in a buffer.
use piconalpaka.Prelude.{
  subst, ℕ, zero, suc, ◌+◌, ◌<◌, ◌≤◌, ◌≡◌, true, false, not, ◌&&◌, Option, none, some, List, ◌∷◌,
  ◌==◌, leb, if◌then◌else◌, arith, refl, sym, ap, ◌∙◌, Bool-cases, inl, inr, ◌>>=◌,
}
use piconalpaka.Dimensions.{DataSpace3, one_dimension_greater3}
use piconalpaka.Mask.{Mask, is_set, join}
use piconalpaka.Mask.Mirror.{opposite, mirrored-opposite}
use piconalpaka.Buffers.Exchanges.{
  GridLayout, send_exchange, receive_exchange, exchange_intern, exchange_size,
  exchange_type_to_offset, border_area, guard_area,
}
use piconalpaka.Buffers.Grid.Tables.{
  filled, filled-set_at, filled-skip, filled_at, filled_end, set_at-opposite, mirrored,
}
use piconalpaka.Buffers.Grid.{
  ExchangeIntern, GridBuffer, has_tag, is_tag_uniqu, max, uniq_communication_tag, set_at,
  add_direction, register_direction, add_from, add_exchange,
}

module _ (grid_layout : GridLayout) (guarding_cells : DataSpace3) (data_place tag : ℕ) where
  -- The exchanges of a direction of the send mask
  abbrev pub sent : ℕ → ExchangeIntern
  sent ex = record {
    region = record {
      size = exchange_size ex grid_layout guarding_cells;
      offset =
          exchange_type_to_offset ex grid_layout guarding_cells
            (if data_place == guard_area then border_area else guard_area);
    };
    communication_tag = uniq_communication_tag tag ex;
  }

  abbrev pub received : ℕ → ExchangeIntern
  received ex = record {
    region = record {
      size = exchange_size (opposite ex) grid_layout guarding_cells;
      offset =
          exchange_type_to_offset (opposite ex) grid_layout guarding_cells
            (if data_place == guard_area then guard_area else border_area);
    };
    communication_tag = uniq_communication_tag tag ex;
  }

  module _ (fits : one_dimension_greater3 guarding_cells grid_layout.guard ≡ false) where
    -- A round for a direction that is set
    record Round (ex : ℕ) (g : GridBuffer) (t : Option (GridBuffer × List ℕ)) : Type 0 where
      after : GridBuffer
      tags : List ℕ
      run : t ≡ some (after, tags)
      has_one : after.has_one_exchange ≡ true
      sends : after.send_exchanges ≡ set_at ex (sent ex) g.send_exchanges
      receives : after.receive_exchanges ≡ set_at (opposite ex) (received ex) g.receive_exchanges

    add_direction-Round :
        (ex : ℕ) (g : GridBuffer) (tags : List ℕ)
        → ex < 27
        → g.send_exchanges ex ≡ none
        → Round ex g
            (add_direction grid_layout guarding_cells data_place tag ex g >>= λ h. some (h, tags))
    unfolding add_direction send_exchange receive_exchange exchange_intern
    add_direction-Round ex g ts h empty = record {
      after = record g {
        has_one_exchange = true;
        max_exchange = max (max g.max_exchange (ex + 1)) (opposite ex + 1);
        send_exchanges = set_at ex (sent ex) g.send_exchanges;
        receive_exchanges = set_at (opposite ex) (received ex) g.receive_exchanges;
      };
      tags = ts;
      run = rw (empty, mirrored-opposite ex h, fits) refl;
      has_one = refl;
      sends = refl;
      receives = refl;
    }

    register_direction-Round :
        (ex : ℕ) (g : GridBuffer) (tags : List ℕ)
        → ex < 27
        → g.send_exchanges ex ≡ none
        → (g.has_one_exchange ≡ false → has_tag (uniq_communication_tag tag ex) tags ≡ false)
        → Round ex g (register_direction grid_layout guarding_cells data_place tag ex (g, tags))
    unfolding register_direction is_tag_uniqu
    register_direction-Round ex g tags h empty free = elim (Bool-cases g.has_one_exchange) [
      | inl e ↦ simp e (add_direction-Round ex g tags h empty)
      | inr e ↦
          simp (e, free e) (add_direction-Round ex g (uniq_communication_tag tag ex ∷ tags) h empty)
    ]

    -- The first direction from `i` on that is set
    abbrev IsFirst : ℕ → Mask → ℕ → Type 0
    IsFirst i send j =
        (i ≤ j)
        × (j < 27)
        × (is_set send j ≡ true)
        × ((k : ℕ) → i ≤ k → k < j → is_set send k ≡ false)

    IsFirst-skip :
        (i : ℕ) (send : Mask) (j : ℕ)
        → is_set send i ≡ false
        → IsFirst (suc i) send j
        → IsFirst i send j
    IsFirst-skip i send j off (le, lt, on, none_before) = (
      omega (arith, le),
      lt,
      on,
      λ k above below. elim (Bool-cases (k == i)) [
        | inl e ↦ subst (λ l. is_set send l ≡ false) (ground (arith, e)) off
        | inr e ↦ none_before k (ground (arith, e, above)) below
      ],
    )

    -- What the loop needs from direction `i` on
    record Ready (i : ℕ) (send : Mask) (g : GridBuffer) (tags : List ℕ) : Type 0 where
      empty : (j : ℕ) → i ≤ j → j < 27 → is_set send j ≡ true → g.send_exchanges j ≡ none
      free :
          g.has_one_exchange ≡ false
          → (j : ℕ) → IsFirst i send j
          → has_tag (uniq_communication_tag tag j) tags ≡ false

    -- What the loop has done
    record Filled (i : ℕ) (send : Mask) (g : GridBuffer) (t : Option (GridBuffer × List ℕ))
        : Type 0 where
      after : GridBuffer
      tags : List ℕ
      run : t ≡ some (after, tags)
      sends : (j : ℕ) → j < 27 → after.send_exchanges j ≡ filled i send sent g.send_exchanges j
      receives :
          (j : ℕ)
          → j < 27
          → after.receive_exchanges (opposite j)
            ≡ filled i send received (λ k. g.receive_exchanges (opposite k)) j

    Ready-next :
        (i : ℕ) (send : Mask) (g : GridBuffer) (tags : List ℕ) (t : Option (GridBuffer × List ℕ))
        → Ready i send g tags
        → (r : Round i g t) → Ready (suc i) send r.after r.tags
    Ready-next i send g tags t h r = record {
      empty = λ j l lt on.
          let other : (j == i) ≡ false = ground (arith, l) in
          ap (λ f. f j) r.sends ∙ rw other (h.empty j (omega (arith, l)) lt on);
      free = λ e j first. absurd (ground (arith, e, r.has_one));
    }

    Filled-on :
        (i : ℕ) (send : Mask) (g : GridBuffer) (t u : Option (GridBuffer × List ℕ))
        → i < 27
        → is_set send i ≡ true
        → (r : Round i g t) → Filled (suc i) send r.after u
        → Filled i send g u
    Filled-on i send g t u h on r f = record {
      after = f.after;
      tags = f.tags;
      run = f.run;
      sends = λ j l.
          f.sends j l
          ∙ ap (λ x. filled (suc i) send sent x j) r.sends
          ∙ filled-set_at send sent g.send_exchanges i on j;
      receives = λ j l.
          f.receives j l
          ∙ filled_at send received (λ k. r.after.receive_exchanges (opposite k)) (suc i)
              (set_at i (received i) (λ k. g.receive_exchanges (opposite k))) j
              (ap (λ x. x (opposite j)) r.receives
                ∙ set_at-opposite i j (received i) g.receive_exchanges h l)
          ∙ filled-set_at send received (λ k. g.receive_exchanges (opposite k)) i on j;
    }

    add_from-Filled :
        (count i : ℕ) (send : Mask) (g : GridBuffer) (tags : List ℕ)
        → count + i ≡ 27
        → Ready i send g tags
        → Filled i send g
            (add_from grid_layout guarding_cells data_place tag count i send (g, tags))
    unfolding add_from
    add_from-Filled zero i send g tags e h = record {
      after = g;
      tags = tags;
      run = refl;
      sends = λ j l. sym (filled_end send sent g.send_exchanges i j (omega (arith, e, l)));
      receives = λ j l. sym (
          filled_end send received (λ k. g.receive_exchanges (opposite k)) i j
            (omega (arith, e, l)));
    }
    add_from-Filled (suc count) i send g tags e h = elim (Bool-cases (is_set send i)) [
      | inl on ↦
          let lt : i < 27 = omega (arith, e) in
          let r =
            register_direction-Round i g tags lt (h.empty i (omega arith) lt on)
              (λ b. h.free b i (omega arith, lt, on, λ k a l. absurd (omega (arith, a, l)))) in
          let rest =
            add_from-Filled count (suc i) send r.after r.tags (omega (arith, e))
              (Ready-next i send g tags _ h r) in
          rw (on, r.run) (Filled-on i send g _ _ lt on r rest)
      | inr off ↦
          let f = add_from-Filled count (suc i) send g tags (omega (arith, e)) (record {
            empty = λ j l lt on. h.empty j (omega (arith, l)) lt on;
            free = λ b j first. h.free b j (IsFirst-skip i send j off first);
          }) in
          rw off (record {
            after = f.after;
            tags = f.tags;
            run = f.run;
            sends = λ j l. f.sends j l ∙ filled-skip send sent g.send_exchanges i off j;
            receives = λ j l.
                f.receives j l
                ∙ filled-skip send received (λ k. g.receive_exchanges (opposite k)) i off j;
          })
    ]

    -- For a guard that is wide enough, a tag that the buffer uses already if it has an exchange,
    -- directions that it has no exchange for yet, and, if it has no exchange at all, a tag of the first
    -- of these directions that no buffer has registered: `addExchange` succeeds, and gives each direction
    -- from 1 to 26 whose mirror is in `receive` a new send exchange, and its mirror a receive exchange
    -- with the same tag; those of the other directions from 1 to 26 stay as they are.
    pub add_exchange_lem :
        (receive : Mask) (g : GridBuffer) (tags : List ℕ)
        → g.has_one_exchange && not (tag == g.last_used_communication_tag) ≡ false
        → ((ex : ℕ)
            → 0 < ex
            → ex < 27
            → is_set receive (opposite ex) ≡ true
            → g.send_exchanges ex ≡ none)
        → (g.has_one_exchange ≡ false
            → (ex : ℕ) → 0 < ex
            → ex < 27
            → is_set receive (opposite ex) ≡ true
            → ((k : ℕ) → 0 < k → k < ex → is_set receive (opposite k) ≡ false)
            → has_tag (uniq_communication_tag tag ex) tags ≡ false)
        → (h : GridBuffer) × (tags' : List ℕ) × (add_exchange grid_layout guarding_cells data_place
              tag receive
              (g, tags)
            ≡ some (h, tags'))
          × ((ex : ℕ)
              → 0 < ex
              → ex < 27
              → (h.send_exchanges ex
                  ≡ (if is_set receive (opposite ex) then some (sent ex) else g.send_exchanges ex))
                × (h.receive_exchanges (opposite ex) ≡ (
                    if is_set receive (opposite ex)
                    then some (received ex)
                    else g.receive_exchanges (opposite ex))))
    unfolding add_exchange filled
    add_exchange_lem receive g tags same empty free =
        let (all, all_eq, _) = mirrored (join g.receive_mask receive) in
        let (send, send_eq, set) = mirrored receive in
        let g1 : GridBuffer = record g {
          last_used_communication_tag = tag;
          receive_mask = join g.receive_mask receive;
          send_mask = all;
        } in
        let f = add_from-Filled 26 1 send g1 tags refl (record {
          empty = λ j l lt on.
              let low : 0 < j = omega (arith, l) in empty j low lt (sym (set j low lt) ∙ on);
          free = λ b j (l, lt, on, none_before).
              let low : 0 < j = omega (arith, l) in
              free b j low lt (sym (set j low lt) ∙ on) (λ k above below.
                let lt_k : k < 27 = omega (arith, below, lt) in
                sym (set k above lt_k) ∙ none_before k (omega (arith, above)) below);
        }) in
        (
          f.after,
          f.tags,
          rw (same, all_eq, send_eq) f.run,
          λ ex low high.
              let from : leb 1 ex ≡ true = ground (arith, low) in
              (
                f.sends ex high ∙ rw (from, set ex low high) refl,
                f.receives ex high ∙ rw (from, set ex low high) refl,
              ),
        )
