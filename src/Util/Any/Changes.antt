-- ===== src/Util/Any/Changes.antt =====
-- What the methods of `any` do to the objects and the heap: one object gets another value, ends, or is
-- new, and the others keep theirs.
use waylandpp.Prelude.{
  ℕ, suc, ◌<◌, ◌≡◌, ◌≢◌, refl, sym, ap, ◌∙◌, Option, none, some, ◌∷◌, arith, ◌==◌, Bool-cases, inl,
  inr,
}
use waylandpp.Prelude.Assoc.{find_key, set_key, erase_key, tally, tally-erase}
use waylandpp.Util.Any.{State, update}
use waylandpp.Util.Any.Owners.{Owned, address, grown, without, there, old, set-Owned, others}
use waylandpp.Util.Any.Values.{
  self, owners, held, values, values_agree, values-set, values-erase, set_same,
}

module _ {V : Type 0} where
  module _ (s : State V) (i : Owned s) (l p : ℕ) (here : find_key l s.objs ≡ some p) where
    -- What `l` gets instead of what it had
    abbrev pub exchanged : Option V → State V
    exchanged o =
        let u : State V = without p s in
        let g : State V = grown o u in record g { objs = set_key l (address o u) g.objs }

    new_value : (h : ℕ → Option V) (w : V) → held (update h s.next (some w)) s.next ≡ some w
    new_value h w = ground (arith, i.next_pos)

    pub exchanged-Owned : (o : Option V) → Owned (exchanged o)
    exchanged-Owned none = elim (Bool-cases (p == 0)) [
      | inl null ↦ rw null (
          set-Owned s i l p here 0 s.next s.heap (λ d nz. ground (arith, null, nz)) i.fresh
            i.next_pos)
      | inr full ↦
          let (v, e) = there s i l p here (ground (arith, full)) in
          rw full (
            set-Owned s i l p here 0 s.next (update s.heap p none) (λ d nz. ground (arith, nz, e))
              (λ d above. ground (arith, i.fresh d above)) i.next_pos)
    ]
    exchanged-Owned (some w) = elim (Bool-cases (p == 0)) [
      | inl null ↦ rw null (
          set-Owned s i l p here s.next (suc s.next) (update s.heap s.next (some w))
            (λ d nz. ground (arith, null, nz, i.fresh d))
            (λ d above. ground (arith, i.fresh d, above)) (omega arith))
      | inr full ↦
          let (v, e) = there s i l p here (ground (arith, full)) in
          rw full (
            set-Owned s i l p here s.next (suc s.next)
              (update (update s.heap p none) s.next (some w))
              (λ d nz. ground (arith, nz, e, i.fresh d, old s i l p here))
              (λ d above. ground (arith, i.fresh d, above)) (omega arith))
    ]

    pub values-exchanged :
        (o : Option V)
        → values (exchanged o).heap (exchanged o).objs ≡ set_key l o (values s.heap s.objs)
    values-exchanged none = elim (Bool-cases (p == 0)) [
      | inl null ↦ rw null (values-set s.heap s.heap l p 0 s.objs here (λ d more. refl))
      | inr full ↦ rw full (
          values-set s.heap (update s.heap p none) l p 0 s.objs here
            (λ d more. ground (arith, others s i l p here d more)))
    ]
    values-exchanged (some w) = elim (Bool-cases (p == 0)) [
      | inl null ↦ rw null (
          values-set s.heap (update s.heap s.next (some w)) l p s.next s.objs here
            (λ d more. ground (arith, others s i l p here d more))
          ∙ ap (λ x. set_key l x (values s.heap s.objs)) (new_value s.heap w))
      | inr full ↦ rw full (
          values-set s.heap (update (update s.heap p none) s.next (some w)) l p s.next s.objs here
            (λ d more. ground (arith, others s i l p here d more))
          ∙ ap (λ x. set_key l x (values s.heap s.objs)) (new_value (update s.heap p none) w))
    ]

    -- Destruction of the object
    abbrev pub ended : State V
    ended = let u : State V = without p s in record u { objs = erase_key l u.objs }

    pub ended-Owned : Owned ended
    ended-Owned = elim (Bool-cases (p == 0)) [
      | inl null ↦ rw null (record {
        alone = λ d nz. ground (arith, tally-erase l self d p s.objs here, i.alone d nz, null, nz);
        fresh = i.fresh;
        next_pos = i.next_pos;
      })
      | inr full ↦
          let (v, e) = there s i l p here (ground (arith, full)) in
          rw full (record {
            alone = λ d nz. ground (arith, tally-erase l self d p s.objs here, i.alone d nz, e);
            fresh = λ d above. ground (arith, i.fresh d above);
            next_pos = i.next_pos;
          })
    ]

    pub values-ended : values ended.heap ended.objs ≡ erase_key l (values s.heap s.objs)
    values-ended = elim (Bool-cases (p == 0)) [
      | inl null ↦ rw null (values-erase s.heap s.heap l p s.objs here (λ d more. refl))
      | inr full ↦ rw full (
          values-erase s.heap (update s.heap p none) l p s.objs here
            (λ d more. ground (arith, others s i l p here d more)))
    ]

    -- The value is overwritten in its place.
    abbrev pub overwritten : V → State V
    overwritten w = record s { heap = update s.heap p (some w) }

    module _ (w : V) (nz : p ≢ 0) where
      pub overwritten-Owned : Owned (overwritten w)
      overwritten-Owned =
          let (v, e) = there s i l p here nz in
          record {
            alone = λ d dz. ground (arith, i.alone d dz, e);
            fresh = λ d above. ground (arith, i.fresh d above, old s i l p here, above);
            next_pos = i.next_pos;
          }

      pub values-overwritten :
          values (overwritten w).heap s.objs ≡ set_key l (some w) (values s.heap s.objs)
      values-overwritten =
          sym (ap (values (overwritten w).heap) (set_same l p s.objs here))
          ∙ values-set s.heap (overwritten w).heap l p p s.objs here
              (λ d more. ground (arith, others s i l p here d more))
          ∙ ap (λ x. set_key l x (values s.heap s.objs)) (ground (arith, nz))

  -- A new object
  abbrev pub placed : ℕ → Option V → State V → State V
  placed l o s = let g : State V = grown o s in record g { objs = (l, address o s) ∷ g.objs }

  module _ (s : State V) (i : Owned s) (l : ℕ) where
    old_only : (d : ℕ) → 0 < owners d s.objs → d ≢ 0 → d < s.next
    old_only d pos nz = ground (arith, pos, i.alone d nz, i.fresh d)

    pub placed-Owned : (o : Option V) → Owned (placed l o s)
    unfolding tally
    placed-Owned none = record {
      alone = λ d nz. ground (arith, i.alone d nz, nz);
      fresh = i.fresh;
      next_pos = i.next_pos;
    }
    placed-Owned (some w) = record {
      alone = λ d nz. ground (arith, i.alone d nz, i.fresh d);
      fresh = λ d above. ground (arith, i.fresh d, above);
      next_pos = omega arith;
    }

    pub values-placed :
        (o : Option V)
        → values (placed l o s).heap (placed l o s).objs ≡ (l, o) ∷ values s.heap s.objs
    unfolding values
    values-placed none = refl
    values-placed (some w) =
        let new_value : held (update s.heap s.next (some w)) s.next ≡ some w =
          ground (arith, i.next_pos) in
        rw
          (
            new_value,
            values_agree s.heap (update s.heap s.next (some w)) s.objs
                (λ d pos. ground (arith, old_only d pos)),
          )
          refl
