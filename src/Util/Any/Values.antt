-- ===== src/Util/Any/Values.antt =====
-- The values that the objects hold, without the addresses.
use waylandpp.Prelude.{
  ℕ, ◌<◌, ◌≡◌, refl, ap, Option, none, some, [], ◌∷◌, arith, ◌==◌, if◌then◌else◌, Bool-cases, inl,
  inr,
}
use waylandpp.Prelude.Assoc.{Assoc, hit, find_key, set_key, erase_key, tally, tally_pos}

abbrev pub self : ℕ → ℕ
self p = p

-- How many objects have the address `d`
abbrev pub owners : ℕ → Assoc ℕ → ℕ
owners d os = tally self d os

module _ {V : Type 0} where
  -- What an object with the address `p` holds
  abbrev pub held : (ℕ → Option V) → ℕ → Option V
  held h p = if p == 0 then none else h p

  unfoldable pub values : (ℕ → Option V) → Assoc ℕ → Assoc (Option V)
  values h [] = []
  values h ((k, p) ∷ os) = (k, held h p) ∷ values h os

  pub find-values :
      (h : ℕ → Option V) (l p : ℕ) (os : Assoc ℕ)
      → find_key l os ≡ some p
      → find_key l (values h os) ≡ some (held h p)
  unfolding find_key values
  find-values h l p [] e = ground arith
  find-values h l p ((k, q) ∷ os) e = elim (Bool-cases (k == l)) [
    | inl same ↦
        rw same
          (ap (λ o. elim o [ none ↦ some (held h p) | some r ↦ some (held h r) ]) (rw same at e))
    | inr other ↦ rw other (find-values h l p os (rw other at e))
  ]

  pub values_put :
      (h : ℕ → Option V) (l r : ℕ) (os : Assoc ℕ)
      → values h (set_key l r os) ≡ set_key l (held h r) (values h os)
  unfolding values set_key
  values_put h l r [] = refl
  values_put h l r ((k, q) ∷ os) = elim (Bool-cases (k == l)) [
    | inl same ↦ rw same refl
    | inr other ↦ rw (other, values_put h l r os) refl
  ]

  module _ (h g : ℕ → Option V) where
    -- Heaps that agree at the addresses of all objects
    pub values_agree :
        (os : Assoc ℕ)
        → ((d : ℕ) → 0 < owners d os → held g d ≡ held h d)
        → values g os ≡ values h os
    unfolding values tally
    values_agree [] same = refl
    values_agree ((k, q) ∷ os) same =
        rw (same q (ground arith), values_agree os (λ d pos. same d (omega (arith, pos)))) refl

    -- And at those of all objects but one, which gets another address
    pub values-set :
        (l p r : ℕ) (os : Assoc ℕ)
        → find_key l os ≡ some p
        → ((d : ℕ) → hit p d < owners d os → held g d ≡ held h d)
        → values g (set_key l r os) ≡ set_key l (held g r) (values h os)
    unfolding values tally find_key set_key
    values-set l p r [] e same = refl
    values-set l p r ((k, q) ∷ os) e same = elim (Bool-cases (k == l)) [
      | inl here ↦
          let pq : q ≡ p = ground (arith, here) in
          rw (here, values_agree os (λ d pos. same d (rw pq (omega (arith, pos))))) refl
      | inr other ↦
          let rest : find_key l os ≡ some p = rw other at e in
          let (n, one) = tally_pos l self p os rest in
          rw
            (
              other,
              same q (ground (arith, one)),
              values-set l p r os rest (λ d pos. same d (omega (arith, pos))),
            )
            refl
    ]

    pub values-erase :
        (l p : ℕ) (os : Assoc ℕ)
        → find_key l os ≡ some p
        → ((d : ℕ) → hit p d < owners d os → held g d ≡ held h d)
        → values g (erase_key l os) ≡ erase_key l (values h os)
    unfolding values tally find_key erase_key
    values-erase l p [] e same = refl
    values-erase l p ((k, q) ∷ os) e same = elim (Bool-cases (k == l)) [
      | inl here ↦
          let pq : q ≡ p = ground (arith, here) in
          rw (here, values_agree os (λ d pos. same d (rw pq (omega (arith, pos))))) refl
      | inr other ↦
          let rest : find_key l os ≡ some p = rw other at e in
          let (n, one) = tally_pos l self p os rest in
          rw
            (
              other,
              same q (ground (arith, one)),
              values-erase l p os rest (λ d pos. same d (omega (arith, pos))),
            )
            refl
    ]

-- An address that is set again
pub set_same :
    {A : Type 0} (l : ℕ) (x : A) (os : Assoc A) → find_key l os ≡ some x → set_key l x os ≡ os
unfolding find_key set_key
set_same l x [] e = refl
set_same l x ((k, y) ∷ os) e = elim (Bool-cases (k == l)) [
  | inl here ↦ let yx : y ≡ x = ground (arith, here) in rw (here, yx) refl
  | inr other ↦ rw (other, set_same l x os (rw other at e)) refl
]
