-- ===== src/Util/Shared/Holds.antt =====
-- An object that shares a native object, through the operations on other objects.
use waylandpp.Prelude.{
  ℕ, ◌+◌, ◌≡◌, ◌≢◌, refl, ap, ◌∙◌, false, some, ◌∷◌, arith, ◌==◌, ==_self, ne_false,
}
use waylandpp.Prelude.Assoc.{find_key, find-erase_ne}
use waylandpp.Runtime.{ok}
use waylandpp.Util.Shared.{
  Block, Wrapper, other, State, construct_from, destroy, native_of, c_ptr, basic_c_ptr,
}
use waylandpp.Util.Shared.Blocks.{alive}
use waylandpp.Util.Shared.Counts.{destroyed, Owned, get_ok, load_ok, native-alive}
use waylandpp.Util.Shared.Operations.{live, construct_from_lem, destroy_lem}

module _ {C : Type 0} where
  -- The wrapper `p` in `l` shares the native object `x`, which has one owner and is not destroyed.
  pub record Holds (x l : ℕ) (p : Wrapper) (s : State C) : Type 0 where
    pub owned : Owned s
    pub here : find_key l s.objs ≡ some p
    pub block : Block
    pub there : find_key p.block s.blocks ≡ some block
    pub object : block.object ≡ x
    pub shared : p.block ≢ 0
    pub once : alive x s.blocks + destroyed x s.calls ≡ 1

  module _ {x l : ℕ} {p : Wrapper} {s : State C} (h : Holds x l p s) where
    pub native_held : native_of p.block s ≡ ok x s
    unfolding native_of
    native_held = rw (ne_false p.block h.shared, load_ok p.block h.block s h.there, h.object) refl

    pub c_ptr_held : x ≢ 0 → c_ptr l s ≡ ok x s
    unfolding c_ptr
    c_ptr_held nz = rw (get_ok l p s h.here, native_held, ne_false x nz) refl

    pub basic_c_ptr_held : p.pointer ≢ 0 → basic_c_ptr l s ≡ ok p.pointer s
    unfolding basic_c_ptr
    basic_c_ptr_held nz = rw (get_ok l p s h.here, ne_false p.pointer nz) refl

    pub not_destroyed : x ≢ 0 → destroyed x s.calls ≡ 0
    not_destroyed nz =
        let pos = native-alive p.block x s (live s h.owned l p h.here) native_held nz in
        omega (arith, pos, h.once)

    -- A call of a library that destroys nothing
    pub Holds-called : (c : C) → Holds x l p (record s { calls = other c ∷ s.calls })
    unfolding destroyed
    Holds-called c = record {
      owned = record {
        counted = h.owned.counted;
        below = h.owned.below;
        next_pos = h.owned.next_pos;
      };
      here = h.here;
      block = h.block;
      there = h.there;
      object = h.object;
      shared = h.shared;
      once = h.once;
    }

    -- The end of another object
    pub Holds-destroyed :
        (m : ℕ) (q : Wrapper)
        → x ≢ 0
        → find_key m s.objs ≡ some q
        → (m == l) ≡ false
        → (t : State C) × ((destroy m s ≡ ok tt t) × Holds x l p t)
    Holds-destroyed m q nz found ne =
        let (k, (objs, objects)) = destroy_lem s h.owned m q found in
        let (b, (still, same)) = objects p.block h.block h.there in
        (
          k.after,
          (
            k.done,
            record {
              owned = k.kept;
              here = ap (find_key l) objs ∙ (find-erase_ne m l s.objs ne ∙ h.here);
              block = b;
              there = still;
              object = same ∙ h.object;
              shared = h.shared;
              once = omega (arith, k.balance x nz, h.once);
            },
          ),
        )

    -- A new object that shares the native object
    pub Holds-copied :
        (r n : ℕ)
        → x ≢ 0
        → (r == l) ≡ false
        → (t : State C) × ((construct_from r n l s ≡ ok tt t)
            × (Holds x l p t × Holds x r (record { pointer = n; block = p.block }) t))
    unfolding find_key
    Holds-copied r n nz ne =
        let (k, (objs, objects)) = construct_from_lem s h.owned r n l p h.here in
        let (b, (still, same)) = objects p.block h.block h.there in
        let once : alive x k.after.blocks + destroyed x k.after.calls ≡ 1 =
          omega (arith, k.balance x nz, h.once) in
        (
          k.after,
          (
            k.done,
            (
              record {
                owned = k.kept;
                here = ap (find_key l) objs ∙ rw ne h.here;
                block = b;
                there = still;
                object = same ∙ h.object;
                shared = h.shared;
                once = once;
              },
              record {
                owned = k.kept;
                here = ap (find_key r) objs ∙ rw (==_self r) refl;
                block = b;
                there = still;
                object = same ∙ h.object;
                shared = h.shared;
                once = once;
              },
            ),
          ),
        )
