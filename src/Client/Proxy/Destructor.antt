-- ===== src/Client/Proxy/Destructor.antt =====
-- The destructor from a balanced state: it ends, without a fault, and keeps every counter right.
use waylandpp.Prelude.{
  ℕ, zero, suc, ◌+◌, ◌≤◌, ◌<◌, ◌≡◌, refl, ◌≢◌, false, none, some, arith, ◌==◌, Bool-cases,
  Option-cases, inl, inr, ◌∙◌,
}
use waylandpp.Runtime.{ok, dec32}
use waylandpp.Client.Proxy.Objects.{Proxy, Loc, wrapped, get_obj, hit}
use waylandpp.Client.Proxy.{ProxyData, State, update, is_foreign, release, destroy}
use waylandpp.Client.Proxy.Invariant.{Inv, get-Fits}
use waylandpp.Client.Proxy.Release.{
  cleared, dropped, deleting, release_null, release_shared, release_last,
}
use waylandpp.Client.Proxy.Destroy.{
  Leaves, Above, Destroyed, finished, finished-frame, finished-Inv, dropped-Inv, freed-Inv, held,
  Above-mono, wrapped-ne, Fits-Above, Fits-native, Leaves-kept,
}

pub destroy_step :
    (k : ℕ) (l : Loc) (p : Proxy) (s t : State)
    → release (destroy k) l s ≡ ok tt (cleared l p t)
    → destroy (suc k) l s ≡ ok tt (finished l p t)
unfolding destroy
destroy_step k l p s t e = rw e

-- The destructor has run on `fuel`, and this is what it did.
abbrev pub Destroys : ℕ → (lost owed : ℕ → ℕ) → Loc → Proxy → State → Type 0
Destroys fuel lost owed l p s =
    (t : State) × (destroy fuel l s ≡ ok tt t) × Destroyed lost owed l p s t

-- Above the data that the object refers to nothing is owed for.
abbrev pub Paid : (ℕ → ℕ) → ℕ → Type 0
Paid owed n = (j : ℕ) → j ≤ n → owed j ≡ 0

module _ (k : ℕ) (lost owed : ℕ → ℕ) (l : Loc) (p : Proxy) (s : State) (i : Inv lost owed s)
    (here : get_obj l s.objs ≡ some p) (leaves : Leaves l s.heap) where
  own : Above l p.data_ptr
  own = Fits-Above l p (get-Fits l p s.objs i.fits here)

  destroy_null : p.data_ptr ≡ 0 → Destroys (suc k) lost owed l p s
  destroy_null z = (
    finished l p s,
    destroy_step k l p s s (release_null (destroy k) l p s here z),
    record {
      inv = finished-Inv l p s lost owed here leaves (record {
        owned = λ d nz. ground (arith, i.owned d nz);
        fits = i.fits;
        members = i.members;
        fresh = i.fresh;
        small = i.small;
        null_free = i.null_free;
        next_pos = i.next_pos;
      });
      frame = λ m above ne. finished-frame l p s m ne;
      above = λ d lt. refl;
    },
  )

  module _ (c : ProxyData) (nz : p.data_ptr ≢ 0) (h : s.heap p.data_ptr ≡ some c)
      (pos : 0 < c.counter) where
    shared_after : State
    shared_after = record s { heap = update s.heap p.data_ptr (some (dropped c)) }

    destroy_shared : dec32 c.counter ≢ 0 → Destroys (suc k) lost owed l p s
    unfolding shared_after
    destroy_shared more = (
      finished l p shared_after,
      destroy_step k l p s shared_after (release_shared (destroy k) l p s c here nz h more),
      record {
        inv =
            finished-Inv l p shared_after lost owed here
              (Leaves-kept l p.data_ptr s.heap _ own (λ d lt. ground arith) leaves)
              (dropped-Inv lost owed s i p.data_ptr c s.calls h pos);
        frame = λ m above ne. finished-frame l p shared_after m ne;
        above = λ d lt. ground arith;
      },
    )

    -- The last copy: the data goes with it, and before that the wrapped proxy `q`, which left `t`.
    destroy_last :
        (q : Proxy) (t : State)
        → dec32 c.counter ≡ 0
        → q.data_ptr < p.data_ptr
        → destroy k (wrapped p.data_ptr) (deleting (destroy k) l p s c) ≡ ok tt t
        → Destroyed lost
            (λ e. owed e + hit p.data_ptr e)
            (wrapped p.data_ptr)
            q
            (deleting (destroy k) l p s c)
            t
        → Destroys (suc k) lost owed l p s
    destroy_last q t last older done is = (
      finished l p freed,
      destroy_step k l p s freed
          (release_last (destroy k) l p s c t here nz h last native done still),
      record {
        inv =
            finished-Inv l p freed lost owed still
              (Leaves-kept l p.data_ptr s.heap _ own (λ d lt. ground (arith, is.above d)) leaves)
              (freed-Inv lost _ t is.inv p.data_ptr (ground (arith, is.above p.data_ptr)));
        frame = λ m above ne. finished-frame l p freed m ne ∙ kept m above;
        above = λ d lt. ground (arith, is.above d);
      },
    )
      where
        kept : (m : Loc) → Above m p.data_ptr → get_obj m t.objs ≡ get_obj m s.objs
        kept m above = is.frame m (Above-mono m (omega arith) above) (wrapped-ne m p.data_ptr above)

        still : get_obj l t.objs ≡ some p
        still = kept l own ∙ here

        native : is_foreign p.type ≡ false
        native = Fits-native l p (get-Fits l p s.objs i.fits here) nz

        freed : State
        freed = record t { heap = update t.heap p.data_ptr none }

-- From a balanced state the destructor of any object returns, on one unit of fuel more than the
-- address of the object's data, and leaves every counter right.
pub destroy_lem :
    (k : ℕ) (lost owed : ℕ → ℕ) (l : Loc) (p : Proxy) (s : State)
    → Inv lost owed s
    → get_obj l s.objs ≡ some p
    → Leaves l s.heap
    → Paid owed p.data_ptr
    → p.data_ptr ≤ k
    → Destroys (suc k) lost owed l p s
destroy_lem zero lost owed l p s i here leaves paid fuel =
    destroy_null zero lost owed l p s i here leaves (omega arith)
destroy_lem (suc k) lost owed l p s i here leaves paid fuel = elim (Bool-cases (p.data_ptr == 0)) [
  | inl null ↦ destroy_null (suc k) lost owed l p s i here leaves (ground (arith, null))
  | inr nonnull ↦
      (let nz : p.data_ptr ≢ 0 = ground (arith, nonnull) in
        let (c, h, pos) =
          held lost owed s i p.data_ptr l p here refl nz (paid p.data_ptr (omega arith)) in
        elim (Bool-cases (dec32 c.counter == 0)) [
          | inr more ↦
              destroy_shared (suc k) lost owed l p s i here leaves c nz h pos (ground (arith, more))
          | inl last ↦ elim (Option-cases (get_obj (wrapped p.data_ptr) s.objs)) [
            | inl missing ↦ absurd (i.members p.data_ptr (ground (arith, h, pos)) missing)
            | inr (q, inner) ↦
                (let older : q.data_ptr < p.data_ptr =
                    (get-Fits (wrapped p.data_ptr) q s.objs i.fits inner).1 in
                  let (t, done, is) =
                    destroy_lem k lost (λ e. owed e + hit p.data_ptr e) (wrapped p.data_ptr) q
                      (deleting (destroy (suc k)) l p s c)
                      (dropped-Inv lost owed s i p.data_ptr c _ h pos) inner (ground (arith, last))
                      (λ j le. ground (arith, paid j)) (omega arith) in
                  destroy_last (suc k) lost owed l p s i here leaves c nz h pos q t
                    (ground (arith, last)) older done is)
          ]
        ])
]
