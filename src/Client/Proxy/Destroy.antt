-- ===== src/Client/Proxy/Destroy.antt =====
-- The steps of the destructor `~proxy_t` on the counters: a reference is dropped, data is freed, an
-- object goes.
use waylandpp.Prelude.{
  ℕ, ◌+◌, ◌≤◌, ◌<◌, ◌≡◌, refl, ◌≢◌, false, none, some, List, arith, Option-cases, inl, inr, ◌∙◌,
}
use waylandpp.Client.Proxy.Objects.{
  Proxy, Loc, var, wrapped, loc_eq, get_obj, set_obj, erase_obj, hit, refs-set, refs-erase,
  get-set_self, get-set_ne, get-erase_ne,
}
use waylandpp.Client.Proxy.{Call, ProxyData, Heap, State, update, is_foreign}
use waylandpp.Client.Proxy.Invariant.{count, Fits, Inv, get-Fits, set-AllFit, erase-AllFit}
use waylandpp.Client.Proxy.Release.{emptied, dropped}

-- A wrapped proxy goes only with data that nothing refers to.
abbrev pub Leaves : Loc → Heap → Type 0
Leaves (var n) h = Unit {0}
Leaves (wrapped d) h = count (h d) ≡ 0

-- The place is no part of the data at `n` or older.
abbrev pub Above : Loc → ℕ → Type 0
Above (var m) n = Unit {0}
Above (wrapped d) n = n < d

-- What the destructor of the object `p` at `l` does to the state.
pub record Destroyed (lost owed : ℕ → ℕ) (l : Loc) (p : Proxy) (s t : State) : Type 0 where
  pub inv : Inv lost owed t
  pub frame :
      (m : Loc) → Above m p.data_ptr → loc_eq l m ≡ false → get_obj m t.objs ≡ get_obj m s.objs
  pub above : (d : ℕ) → p.data_ptr < d → t.heap d ≡ s.heap d

abbrev pub finished : Loc → Proxy → State → State
finished l p s = record s { objs = erase_obj l (set_obj l (emptied p) s.objs) }

Leaves-ne :
    (l : Loc) (h : Heap) (d : ℕ) → Leaves l h → 0 < count (h d) → loc_eq l (wrapped d) ≡ false
Leaves-ne (var n) h d v pos = refl
Leaves-ne (wrapped e) h d v pos = ground arith

emptied-Fits : (l : Loc) (p : Proxy) → Fits l p → Fits l (emptied p)
emptied-Fits (var n) p f = refl
emptied-Fits (wrapped d) p f = (refl, omega arith)

module _ (l : Loc) (p : Proxy) (s : State) where
  pub finished-frame :
      (m : Loc) → loc_eq l m ≡ false → get_obj m (finished l p s).objs ≡ get_obj m s.objs
  finished-frame m ne = get-erase_ne l m _ ne ∙ get-set_ne l m _ s.objs ne

  -- The object gives up the reference that its data's counter no longer counts.
  pub finished-Inv :
      (lost owed : ℕ → ℕ)
      → get_obj l s.objs ≡ some p
      → Leaves l s.heap
      → Inv lost (λ d. owed d + hit p.data_ptr d) s
      → Inv lost owed (finished l p s)
  finished-Inv lost owed here leaves i = record {
    owned = λ d nz. ground (
      arith,
      i.owned d nz,
      refs-set l d (emptied p) p s.objs here,
      refs-erase l d (emptied p) _ (get-set_self l (emptied p) p s.objs here),
    );
    fits = erase-AllFit l _ (
        set-AllFit l (emptied p) s.objs i.fits
          (emptied-Fits l p (get-Fits l p s.objs i.fits here)));
    members = λ d pos.
        rw (finished-frame (wrapped d) (Leaves-ne l s.heap d leaves pos)) (i.members d pos);
    fresh = i.fresh;
    small = i.small;
    null_free = i.null_free;
    next_pos = i.next_pos;
  }

module _ (lost owed : ℕ → ℕ) (s : State) (i : Inv lost owed s) (d : ℕ) where
  -- A counter counts one less, and one reference more is owed.
  pub dropped-Inv :
      (c : ProxyData) (cs : List Call)
      → s.heap d ≡ some c
      → 0 < c.counter
      → Inv lost
          (λ e. owed e + hit d e)
          (record s { heap = update s.heap d (some (dropped c)); calls = cs })
  dropped-Inv c cs h pos = record {
    owned = λ e nz. ground (arith, i.owned e nz, i.small d);
    fits = i.fits;
    members = λ e more. ground (arith, i.members e, i.small d);
    fresh = λ e above. ground (arith, i.fresh e above);
    small = λ e. ground (arith, i.small e, i.small d);
    null_free = ground (arith, i.null_free);
    next_pos = i.next_pos;
  }

  pub freed-Inv : count (s.heap d) ≡ 0 → Inv lost owed (record s { heap = update s.heap d none })
  freed-Inv z = record {
    owned = λ e nz. ground (arith, i.owned e nz);
    fits = i.fits;
    members = λ e more. ground (arith, i.members e);
    fresh = λ e above. ground (arith, i.fresh e above);
    small = λ e. ground (arith, i.small e);
    null_free = ground (arith, i.null_free);
    next_pos = i.next_pos;
  }

  -- What an object refers to is there.
  pub held :
      (l : Loc) (p : Proxy)
      → get_obj l s.objs ≡ some p
      → p.data_ptr ≡ d
      → d ≢ 0
      → owed d ≡ 0
      → (c : ProxyData) × (s.heap d ≡ some c) × (0 < c.counter)
  held l p here at nz paid = elim (Option-cases (s.heap d)) [
    | inl gone ↦ absurd (ground (arith, i.owned d nz, refs-erase l d p s.objs here))
    | inr (c, h) ↦ (c, h, ground (arith, i.owned d nz, refs-erase l d p s.objs here))
  ]

pub Above-mono : (m : Loc) {a b : ℕ} → a ≤ b → Above m b → Above m a
Above-mono (var n) le h = tt
Above-mono (wrapped d) le h = omega arith

pub wrapped-ne : (m : Loc) (d : ℕ) → Above m d → loc_eq (wrapped d) m ≡ false
wrapped-ne (var n) d h = refl
wrapped-ne (wrapped e) d h = ground arith

pub Fits-Above : (l : Loc) (p : Proxy) → Fits l p → Above l p.data_ptr
Fits-Above (var n) p f = tt
Fits-Above (wrapped d) p f = f.1

pub Fits-native : (l : Loc) (p : Proxy) → Fits l p → p.data_ptr ≢ 0 → is_foreign p.type ≡ false
Fits-native (var n) p f nz = ground arith
Fits-native (wrapped d) p f nz = ground arith

pub Leaves-kept :
    (l : Loc) (n : ℕ) (h k : Heap)
    → Above l n
    → ((d : ℕ) → n < d → k d ≡ h d)
    → Leaves l h
    → Leaves l k
Leaves-kept (var m) n h k above same v = tt
Leaves-kept (wrapped d) n h k above same v = rw (same d above) v
