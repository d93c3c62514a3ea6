-- ===== src/Util/Shared/Made.antt =====
-- What a wrapper that has just been made from a native object does: it is the only owner.
use waylandpp.Prelude.{
  ℕ, suc, ◌<◌, ◌≡◌, refl, ap, true, false, ◌∷◌, arith, ◌==◌, if◌then◌else◌, Bool-cases, inl, inr,
  ==_self, ne_false,
}
use waylandpp.Prelude.Assoc.{find_key, set_key, erase_key}
use waylandpp.Runtime.{runtime_error, ok, thrown}
use waylandpp.Util.Shared.{
  Destroyer, destroys_native, State, get, load, unshare, construct, destroy, native_of, c_ptr,
  has_object,
}
use waylandpp.Util.Shared.Counts.{get_ok, load_ok}

module _ {C : Type 0} (l p : ℕ) (k : Destroyer) (s : State C) where
  unfoldable pub made : State C
  made = record {
    objs = (l, record { pointer = 0; block = s.next }) ∷ s.objs;
    blocks = (s.next, record { object = p; destroyer = k; uses = 1 }) ∷ s.blocks;
    next = suc s.next;
    calls = s.calls;
  }

  unfoldable pub unmade : State C
  unmade = record {
    objs = s.objs;
    blocks = (s.next, record { object = p; destroyer = k; uses = 0 }) ∷ s.blocks;
    next = suc s.next;
    calls = destroys_native k p ∷ s.calls;
  }

  pub construct-made : construct l p k s ≡ ok tt made
  unfolding construct made
  construct-made = refl

  get-made : get l made ≡ ok (record { pointer = 0; block = s.next }) made
  unfolding made find_key
  get-made = get_ok l _ made (rw (==_self l) refl)

  load-made : load s.next made ≡ ok (record { object = p; destroyer = k; uses = 1 }) made
  unfolding made find_key
  load-made = load_ok s.next _ made (rw (==_self s.next) refl)

  erased :
      (record made {
        objs = erase_key l made.objs;
        blocks = set_key s.next (record { object = p; destroyer = k; uses = 0 }) made.blocks;
        calls = destroys_native k p ∷ made.calls;
      })
      ≡ unmade
  unfolding made unmade erase_key set_key
  erased = rw (==_self l, ==_self s.next) refl

  module _ (pos : 0 < s.next) where
    native-made : native_of s.next made ≡ ok p made
    unfolding native_of
    native-made = rw (ne_false s.next (omega (arith, pos)), load-made) refl

    pub has_object-made : has_object l made ≡ ok (if p == 0 then false else true) made
    unfolding has_object
    has_object-made = rw (get-made, native-made) refl

    pub c_ptr-made :
        c_ptr l made
        ≡ (if p == 0 then thrown (runtime_error "Tried to access empty object") made else ok p made)
    unfolding c_ptr
    c_ptr-made =
        rw (get-made, native-made)
          (elim (Bool-cases (p == 0)) [ inl null ↦ rw null refl | inr full ↦ rw full refl ])

    pub destroy-made : destroy l made ≡ ok tt unmade
    unfolding destroy unshare
    destroy-made =
        rw (get-made, ne_false s.next (omega (arith, pos)), load-made) (ap (ok tt) erased)
