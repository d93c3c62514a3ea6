-- ===== src/Client/Proxy/Construct.antt =====
-- The constructor of `proxy_t` from a `wl_proxy`: the data that it finds or makes.
use waylandpp.Prelude.{
  ℕ, suc, ◌+◌, ◌<◌, ◌≡◌, refl, ◌≢◌, true, false, ◌||◌, some, List, ◌∷◌, arith, ◌==◌, if◌then◌else◌,
  Bool-cases, inl, inr, ==_self, ne_false,
}
use waylandpp.Runtime.{ok, Env, u32_mod}
use waylandpp.Client.Proxy.Objects.{
  WrapperType, Proxy, var, wrapped, get_obj, set_obj, refs, hit, null_proxy,
}
use waylandpp.Client.Proxy.{
  Call, wl_proxy_get_user_data, wl_proxy_set_user_data, State, update, new_data, is_foreign,
  is_display, load,
}
use waylandpp.Client.Proxy.Methods.{construct, find_data}
use waylandpp.Client.Proxy.Invariant.{count, Inv, no_refs}
use waylandpp.Client.Proxy.Copies.{
  counted, copied, emplaced-Inv, copied-Inv, called-Inv, some_of_count,
}

abbrev pub wrapping : ℕ → WrapperType → Proxy
wrapping p t = record null_proxy { proxy = p; type = t }

abbrev pub placed : ℕ → Proxy → State → State
placed n p s = record s { objs = (var n, p) ∷ s.objs }

-- The calls of the constructor up to the answer, and the address that it goes on with.
abbrev pub asked : ℕ → WrapperType → List Call → List Call
asked p t cs = if is_display t then cs else wl_proxy_get_user_data p ∷ cs

abbrev pub found : Env Call → ℕ → WrapperType → List Call → ℕ
found env p t cs = if is_display t then 0 else env.pointer cs (wl_proxy_get_user_data p)

-- The states that the three branches of the constructor leave.
abbrev pub with_new : ℕ → ℕ → WrapperType → ℕ → State → State
with_new n p t queue s = record {
  objs =
      (wrapped s.next, null_proxy) ∷ (var n, record (wrapping p t) { data_ptr = s.next }) ∷ s.objs;
  heap = update s.heap s.next (some (new_data queue));
  next = suc s.next;
  calls = wl_proxy_set_user_data p s.next ∷ asked p t s.calls;
}

abbrev pub with_found : ℕ → ℕ → WrapperType → ℕ → State → State
with_found n p t d s =
    copied (var n) (record (wrapping p t) { data_ptr = d })
      (record (placed n (wrapping p t) s) { calls = asked p t s.calls })

find_data_ok :
    (env : Env Call) (p : ℕ) (t : WrapperType) (s : State)
    → find_data env p t s ≡ ok (found env p t s.calls) (record s { calls = asked p t s.calls })
unfolding find_data
find_data_ok env p t s = elim (Bool-cases (is_display t)) [
  | inl shown ↦ rw shown refl
  | inr hidden ↦ rw hidden refl
]

module _ (env : Env Call) (n p : ℕ) (t : WrapperType) (queue : ℕ) (s : State) where
  pub construct_bare :
      (is_foreign t || p == 0) ≡ true
      → construct env (var n) p t queue s ≡ ok tt (placed n (wrapping p t) s)
  unfolding construct
  construct_bare bare = rw bare

  pub construct_new :
      (is_foreign t || p == 0) ≡ false
      → found env p t s.calls ≡ 0
      → construct env (var n) p t queue s ≡ ok tt (with_new n p t queue s)
  unfolding construct set_obj
  construct_new full z = rw (full, find_data_ok env p t (placed n (wrapping p t) s), z, ==_self n)

  pub construct_reuses :
      (d : ℕ)
      → (is_foreign t || p == 0) ≡ false
      → found env p t s.calls ≡ d
      → d ≢ 0
      → 0 < count (s.heap d)
      → construct env (var n) p t queue s ≡ ok tt (with_found n p t d s)
  unfolding construct set_obj load
  construct_reuses d full f nz pos =
      let (c, h) = some_of_count (s.heap d) pos in
      rw (full, find_data_ok env p t (placed n (wrapping p t) s), f, ne_false d nz, ==_self n)
        (rw (h, load, counted))

module _ (lost : ℕ → ℕ) (s : State) (i : Inv lost no_refs s) (n p : ℕ) (t : WrapperType) where
  pub with_new-Inv : (queue : ℕ) → is_foreign t ≡ false → Inv lost no_refs (with_new n p t queue s)
  unfolding refs get_obj
  with_new-Inv queue native = record {
    owned = λ d nz. ground (arith, i.owned d nz, i.fresh d);
    fits = ((refl, i.next_pos), (ground (arith, native), i.fits));
    members = λ d pos. ground (arith, i.members d);
    fresh = λ d above. ground (arith, i.fresh d);
    small = λ d. ground (arith, i.small d);
    null_free = ground (arith, i.null_free, i.next_pos);
    next_pos = omega arith;
  }

  -- A reference that was lost at address 0 is none.
  pub lost_null : (u : State) → Inv (λ d. lost d + hit 0 d) no_refs u → Inv lost no_refs u
  lost_null u j = record {
    owned = λ d nz. ground (arith, j.owned d nz);
    fits = j.fits;
    members = j.members;
    fresh = j.fresh;
    small = j.small;
    null_free = j.null_free;
    next_pos = j.next_pos;
  }

  pub with_found-Inv :
      (d : ℕ)
      → is_foreign t ≡ false
      → 0 < count (s.heap d)
      → count (s.heap d) + 1 < u32_mod
      → Inv lost no_refs (with_found n p t d s)
  unfolding get_obj
  with_found-Inv d native pos room = lost_null _ (
      copied-Inv lost _
        (called-Inv lost _ (emplaced-Inv lost s i n (wrapping p t) refl) (asked p t s.calls))
        (var n) (wrapping p t) (record (wrapping p t) { data_ptr = d }) (rw (==_self n))
        (ground (arith, native)) (λ nz. pos) room)
