-- ===== src/Client/Proxy/Copies.antt =====
-- The copies and moves of `proxy_t`: what they do to the state, and that they keep the counters.
use waylandpp.Prelude.{
  ℕ, ◌+◌, ◌<◌, ◌≡◌, refl, ◌≢◌, true, false, Option, none, some, List, ◌∷◌, arith, ◌==◌, Bool-cases,
  Option-cases, inl, inr, ◌∙◌, sym, ap,
}
use waylandpp.Runtime.{ok, u32_mod, inc32}
use waylandpp.Client.Proxy.Objects.{
  Proxy, Loc, var, wrapped, loc_eq, Objs, get_obj, set_obj, refs, hit, refs-set, refs-erase,
  get-set_self, get-set_ne, loc_eq_sound,
}
use waylandpp.Client.Proxy.{Call, ProxyData, Heap, State, update, get_ok, load_ok}
use waylandpp.Client.Proxy.Methods.{is_valid, copy_assign, move_assign}
use waylandpp.Client.Proxy.Invariant.{count, Fits, Inv, no_refs, get-Fits, set-AllFit}

abbrev pub retained : ProxyData → ProxyData
retained c = record c { counter = inc32 c.counter }

-- The data of `p` counts one reference more.
abbrev pub counted : Proxy → Heap → Heap
counted p h = elim (h p.data_ptr) [ none ↦ h | some c ↦ update h p.data_ptr (some (retained c)) ]

abbrev pub copied : Loc → Proxy → State → State
copied l p s = record s { objs = set_obj l p s.objs; heap = counted p s.heap }

-- The counter of the data that `p` refers to may count once more.
abbrev pub HasRoom : Proxy → State → Type 0
HasRoom p s = count (s.heap p.data_ptr) + 1 < u32_mod

pub some_of_count : (o : Option ProxyData) → 0 < count o → (c : ProxyData) × (o ≡ some c)
some_of_count none pos = absurd (omega arith)
some_of_count (some c) pos = (c, refl)

module _ (p : Proxy) (h : Heap) where
  pub counted-some :
      (c : ProxyData)
      → h p.data_ptr ≡ some c
      → counted p h ≡ update h p.data_ptr (some (retained c))
  counted-some c e = rw (e, counted)

  pub counted-same : h p.data_ptr ≡ none → counted p h ≡ h
  counted-same e = rw (e, counted)

  counted-count :
      (e : ℕ)
      → e ≢ 0
      → (p.data_ptr ≢ 0 → 0 < count (h p.data_ptr))
      → count (h p.data_ptr) + 1 < u32_mod
      → count (counted p h e) ≡ count (h e) + hit p.data_ptr e
  counted-count e nz held room = elim (Option-cases (h p.data_ptr)) [
    | inl gone ↦ rw (counted-same gone) (ground (arith, gone, held))
    | inr (c, there) ↦ rw (counted-some c there) (ground (arith, there))
  ]

  counted-pos :
      (e : ℕ)
      → (p.data_ptr ≢ 0 → 0 < count (h p.data_ptr))
      → h 0 ≡ none
      → 0 < count (counted p h e)
      → 0 < count (h e)
  counted-pos e held null = elim (Option-cases (h p.data_ptr)) [
    | inl gone ↦ rw (counted-same gone) (λ pos. pos)
    | inr (c, there) ↦ rw (counted-some c there) (λ pos. ground (arith, there, held))
  ]

  counted-none : (e : ℕ) → h e ≡ none → counted p h e ≡ none
  counted-none e free = elim (Option-cases (h p.data_ptr)) [
    | inl gone ↦ rw (counted-same gone) free
    | inr (c, there) ↦ rw (counted-some c there) (ground (arith, there))
  ]

  counted-small : (e : ℕ) → count (h e) < u32_mod → count (counted p h e) < u32_mod
  counted-small e small = elim (Option-cases (h p.data_ptr)) [
    | inl gone ↦ rw (counted-same gone) small
    | inr (c, there) ↦ rw (counted-some c there) (ground (arith, there))
  ]

still_some :
    (l : Loc) (q p : Proxy) (os : Objs) (d : ℕ)
    → get_obj l os ≡ some q
    → get_obj (wrapped d) os ≢ none
    → get_obj (wrapped d) (set_obj l p os) ≢ none
still_some l q p os d here held = elim (Bool-cases (loc_eq l (wrapped d))) [
  | inl same ↦ rw (← loc_eq_sound l (wrapped d) same, get-set_self l p q os here) (λ e. cc)
  | inr other ↦ rw (get-set_ne l (wrapped d) p os other) held
]

module _ (lost : ℕ → ℕ) (s : State) (i : Inv lost no_refs s) where
  -- A reference of an object is counted.
  pub live :
      (l : Loc) (p : Proxy)
      → get_obj l s.objs ≡ some p
      → p.data_ptr ≢ 0
      → 0 < count (s.heap p.data_ptr)
  live l p here nz = ground (arith, i.owned p.data_ptr nz, refs-erase l p.data_ptr p s.objs here)

  pub copy_assign_ok :
      (l from : Loc) (p : Proxy)
      → get_obj from s.objs ≡ some p
      → loc_eq l from ≡ false
      → is_valid p ≡ true
      → copy_assign l from s ≡ ok tt (copied l p s)
  unfolding copy_assign
  copy_assign_ok l from p there ne valid = elim (Bool-cases (p.data_ptr == 0)) [
    | inl null ↦
        (let z : p.data_ptr ≡ 0 = ground (arith, null) in
          rw (ne, get_ok from p s there, null, valid)
            (ap (λ h. ok tt (record s { objs = set_obj l p s.objs; heap = h }))
              (sym (counted-same p s.heap (ap s.heap z ∙ i.null_free)))))
    | inr nonnull ↦
        (let (c, h) = some_of_count _ (live from p there (ground (arith, nonnull))) in
          rw
            (
              ne,
              get_ok from p s there,
              nonnull,
              load_ok p.data_ptr c (record s { objs = set_obj l p s.objs }) h,
            )
            (rw (valid, counted-some p s.heap c h)))
  ]

  -- The object at `l` is overwritten: what it referred to is still counted, and lost.
  pub copied-Inv :
      (l : Loc) (q p : Proxy)
      → get_obj l s.objs ≡ some q
      → Fits l p
      → (p.data_ptr ≢ 0 → 0 < count (s.heap p.data_ptr))
      → HasRoom p s
      → Inv (λ d. lost d + hit q.data_ptr d) no_refs (copied l p s)
  copied-Inv l q p here fits held room = record {
    owned = λ d nz.
        ground (
          arith,
          i.owned d nz,
          refs-set l d p q s.objs here,
          counted-count p s.heap d nz held room,
        );
    fits = set-AllFit l p s.objs i.fits fits;
    members = λ d pos.
        still_some l q p s.objs d here (i.members d (counted-pos p s.heap d held i.null_free pos));
    fresh = λ d above. counted-none p s.heap d (i.fresh d above);
    small = λ d. counted-small p s.heap d (i.small d);
    null_free = counted-none p s.heap 0 i.null_free;
    next_pos = i.next_pos;
  }

-- The two objects have exchanged their contents.
abbrev pub swapped : Loc → Loc → Proxy → Proxy → State → State
swapped l from p q s = record s { objs = set_obj from p (set_obj l q s.objs) }

module _ (l from : Loc) (p q : Proxy) (s : State) (here : get_obj l s.objs ≡ some p)
    (there : get_obj from s.objs ≡ some q) where
  pub move_assign_ok : move_assign l from s ≡ ok tt (swapped l from p q s)
  unfolding move_assign
  move_assign_ok = rw (get_ok l p s here, get_ok from q s there)

  still_there : get_obj from (set_obj l q s.objs) ≡ some q
  still_there = elim (Bool-cases (loc_eq l from)) [
    | inl same ↦ rw (← loc_eq_sound l from same) (get-set_self l q p s.objs here)
    | inr other ↦ get-set_ne l from q s.objs other ∙ there
  ]

module _ (lost : ℕ → ℕ) (s : State) (i : Inv lost no_refs s) where
  pub swapped-Inv :
      (n m : ℕ) (p q : Proxy)
      → get_obj (var n) s.objs ≡ some p
      → get_obj (var m) s.objs ≡ some q
      → Inv lost no_refs (swapped (var n) (var m) p q s)
  swapped-Inv n m p q here there = record {
    owned = λ d nz. ground (
      arith,
      i.owned d nz,
      refs-set (var n) d q p s.objs here,
      refs-set (var m) d p q _ (still_there (var n) (var m) p q s here there),
    );
    fits =
        set-AllFit (var m) p _
          (set-AllFit (var n) q s.objs i.fits (get-Fits (var m) q s.objs i.fits there))
          (get-Fits (var n) p s.objs i.fits here);
    members = λ d pos.
        rw
          (
            get-set_ne (var m) (wrapped d) p (set_obj (var n) q s.objs) refl,
            get-set_ne (var n) (wrapped d) q s.objs refl,
          )
          (i.members d pos);
    fresh = i.fresh;
    small = i.small;
    null_free = i.null_free;
    next_pos = i.next_pos;
  }

  -- A new object that refers to nothing.
  pub emplaced-Inv :
      (n : ℕ) (p : Proxy)
      → p.data_ptr ≡ 0
      → Inv lost no_refs (record s { objs = (var n, p) ∷ s.objs })
  unfolding refs get_obj
  emplaced-Inv n p z = record {
    owned = λ d nz. ground (arith, i.owned d nz);
    fits = (ground (arith, z), i.fits);
    members = i.members;
    fresh = i.fresh;
    small = i.small;
    null_free = i.null_free;
    next_pos = i.next_pos;
  }

  -- Calls of the library change no counter.
  pub called-Inv : (cs : List Call) → Inv lost no_refs (record s { calls = cs })
  called-Inv cs = record {
    owned = i.owned;
    fits = i.fits;
    members = i.members;
    fresh = i.fresh;
    small = i.small;
    null_free = i.null_free;
    next_pos = i.next_pos;
  }
