-- ===== src/Prelude/Assoc.antt =====
-- Association lists from numbers: the objects of a program by their variables, and how many of them
-- have a property.
use waylandpp.Prelude.{
  ℕ, ◌+◌, ◌≡◌, refl, true, false, Option, none, some, List, [], ◌∷◌, arith, ◌==◌, if◌then◌else◌,
  Bool-cases, inl, inr, ==_self,
}

-- Does the first number equal the second? As a number.
abbrev pub hit : ℕ → ℕ → ℕ
hit a d = if a == d then 1 else 0

pub eq_of : (k l : ℕ) → (k == l) ≡ true → k ≡ l
eq_of k l e = ground arith

abbrev pub Assoc : Type 0 → Type 0
Assoc A = List (ℕ × A)

module _ {A : Type 0} where
  unfoldable pub find_key : ℕ → Assoc A → Option A
  find_key l [] = none
  find_key l ((k, p) ∷ os) = if k == l then some p else find_key l os

  unfoldable pub set_key : ℕ → A → Assoc A → Assoc A
  set_key l q [] = []
  set_key l q ((k, p) ∷ os) = if k == l then (k, q) ∷ os else (k, p) ∷ set_key l q os

  unfoldable pub erase_key : ℕ → Assoc A → Assoc A
  erase_key l [] = []
  erase_key l ((k, p) ∷ os) = if k == l then os else (k, p) ∷ erase_key l os

  -- How many entries have the number `d`
  unfoldable pub tally : (A → ℕ) → ℕ → Assoc A → ℕ
  tally f d [] = 0
  tally f d ((k, p) ∷ os) = hit (f p) d + tally f d os

  module _ (l : ℕ) where
    pub tally-set :
        (f : A → ℕ) (d : ℕ) (q p : A) (os : Assoc A)
        → find_key l os ≡ some p
        → tally f d (set_key l q os) + hit (f p) d ≡ tally f d os + hit (f q) d
    unfolding tally find_key set_key
    tally-set f d q p [] e = ground arith
    tally-set f d q p ((k, r) ∷ os) e = elim (Bool-cases (k == l)) [
      | inl same ↦ rw same (ground (arith, same))
      | inr other ↦ rw other (ground (arith, tally-set f d q p os, other))
    ]

    pub tally-erase :
        (f : A → ℕ) (d : ℕ) (p : A) (os : Assoc A)
        → find_key l os ≡ some p
        → tally f d (erase_key l os) + hit (f p) d ≡ tally f d os
    unfolding tally find_key erase_key
    tally-erase f d p [] e = ground arith
    tally-erase f d p ((k, r) ∷ os) e = elim (Bool-cases (k == l)) [
      | inl same ↦ rw same (ground (arith, same))
      | inr other ↦ rw other (ground (arith, tally-erase f d p os, other))
    ]

    -- An entry that is there counts.
    pub tally_pos :
        (f : A → ℕ) (p : A) (os : Assoc A)
        → find_key l os ≡ some p
        → (n : ℕ) × (tally f (f p) os ≡ n + 1)
    unfolding tally find_key
    tally_pos f p [] e = ground arith
    tally_pos f p ((k, r) ∷ os) e = elim (Bool-cases (k == l)) [
      | inl same ↦ (tally f (f p) os, ground (arith, same))
      | inr other ↦
          let (n, h) = tally_pos f p os (ground (arith, other)) in
          (hit (f r) (f p) + n, omega (arith, h))
    ]

    pub find-set_self :
        (q p : A) (os : Assoc A) → find_key l os ≡ some p → find_key l (set_key l q os) ≡ some q
    unfolding find_key set_key
    find-set_self q p [] e = ground arith
    find-set_self q p ((k, r) ∷ os) e = elim (Bool-cases (k == l)) [
      | inl same ↦ rw same (rw same refl)
      | inr other ↦ rw other (rw other (find-set_self q p os (ground (arith, other))))
    ]

    pub find-set_ne :
        (m : ℕ) (q : A) (os : Assoc A)
        → (l == m) ≡ false
        → find_key m (set_key l q os) ≡ find_key m os
    unfolding find_key set_key
    find-set_ne m q [] e = refl
    find-set_ne m q ((k, r) ∷ os) e = elim (Bool-cases (k == l)) [
      | inl same ↦ rw (eq_of k l same, ==_self l, e) refl
      | inr other ↦ rw other (ground (arith, find-set_ne m q os e))
    ]

    pub find-erase_ne :
        (m : ℕ) (os : Assoc A) → (l == m) ≡ false → find_key m (erase_key l os) ≡ find_key m os
    unfolding find_key erase_key
    find-erase_ne m [] e = refl
    find-erase_ne m ((k, r) ∷ os) e = elim (Bool-cases (k == l)) [
      | inl same ↦ rw (eq_of k l same, ==_self l, e) refl
      | inr other ↦ rw other (ground (arith, find-erase_ne m os e))
    ]

    -- The last of two settings stands.
    pub set-set : (q p : A) (os : Assoc A) → set_key l q (set_key l p os) ≡ set_key l q os
    unfolding set_key
    set-set q p [] = refl
    set-set q p ((k, r) ∷ os) = elim (Bool-cases (k == l)) [
      | inl same ↦ rw same (rw same refl)
      | inr other ↦ rw other (rw (other, set-set q p os) refl)
    ]
