-- ===== src/Server/Store/Inv.antt =====
-- What holds between the calls of the handles' methods: the counter of each data is the number of
-- handles that refer to it, and of references that were lost.
use waylandpp.Prelude.{ℕ, suc, ◌+◌, ◌≤◌, ◌<◌, ◌≡◌, ◌≢◌, refl, Option, none, some, List, ◌∷◌, arith}
use waylandpp.Prelude.Assoc.{
  Assoc, hit, find_key, set_key, erase_key, tally, tally-set, tally-erase, tally_pos,
}
use waylandpp.Runtime.{u32_mod, inc32}
use waylandpp.Server.Store.{Handle, Cell, Members, ServerCall, State, update}

abbrev pub count : Option Cell → ℕ
count none = 0
count (some c) = c.counter

-- How many handles refer to the data at `d`
abbrev pub refs : ℕ → Assoc Handle → ℕ
refs d os = tally (λ p. p.data_ptr) d os

-- `lost d` references to the data at `d` are counted with no handle to give them up; `owed d` are
-- not counted, in the middle of a method.
pub record Inv (lost owed : ℕ → ℕ) (s : State) : Type 0 where
  pub owned : (d : ℕ) → d ≢ 0 → refs d s.objs + lost d ≡ count (s.heap d) + owed d
  pub fresh : (d : ℕ) → s.next ≤ d → s.heap d ≡ none
  pub small : (d : ℕ) → count (s.heap d) < u32_mod
  pub null_free : s.heap 0 ≡ none
  pub next_pos : 0 < s.next

abbrev pub no_refs : ℕ → ℕ
no_refs d = 0

-- Data that counts a reference is there, and not at the null pointer.
pub some_of_count : (o : Option Cell) → 0 < count o → (c : Cell) × (o ≡ some c)
some_of_count none pos = absurd (omega arith)
some_of_count (some c) pos = (c, refl)

module _ (lost owed : ℕ → ℕ) (s : State) (i : Inv lost owed s) where
  -- The data of a handle is there.
  pub live :
      (l : ℕ) (p : Handle)
      → find_key l s.objs ≡ some p
      → p.data_ptr ≢ 0
      → owed p.data_ptr ≡ 0
      → 0 < count (s.heap p.data_ptr)
  live l p here nz none_owed =
      let (n, h) = tally_pos l (λ q. q.data_ptr) p s.objs here in
      omega (arith, h, none_owed, i.owned p.data_ptr nz)

  pub Inv-owed : (owed' : ℕ → ℕ) → ((d : ℕ) → d ≢ 0 → owed d ≡ owed' d) → Inv lost owed' s
  Inv-owed owed' same = record {
    owned = λ d nz. omega (arith, i.owned d nz, same d nz);
    fresh = i.fresh;
    small = i.small;
    null_free = i.null_free;
    next_pos = i.next_pos;
  }

  pub called-Inv : (cs : List ServerCall) → Inv lost owed (record s { calls = cs })
  called-Inv cs = record {
    owned = i.owned;
    fresh = i.fresh;
    small = i.small;
    null_free = i.null_free;
    next_pos = i.next_pos;
  }

  pub placed-Inv :
      (n : ℕ) (p : Handle)
      → Inv lost (λ d. owed d + hit p.data_ptr d) (record s { objs = (n, p) ∷ s.objs })
  unfolding tally
  placed-Inv n p = record {
    owned = λ d nz. omega (arith, i.owned d nz);
    fresh = i.fresh;
    small = i.small;
    null_free = i.null_free;
    next_pos = i.next_pos;
  }

  -- A new data, counted once for a handle that is still to refer to it
  pub allocated-Inv :
      (m : Members)
      → Inv
          (λ d. lost d + hit s.next d)
          owed
          (record s {
            heap = update s.heap s.next (some (record { counter = 1; members = m }));
            next = suc s.next;
          })
  allocated-Inv m = record {
    owned = λ d nz. ground (arith, i.owned d nz, i.fresh d);
    fresh = λ d above. ground (arith, i.fresh d);
    small = λ d. ground (arith, i.small d);
    null_free = ground (arith, i.null_free, i.next_pos);
    next_pos = omega arith;
  }

  -- A data whose counter goes down by one, or that is deleted when it was counted once
  pub lowered-Inv :
      (d : ℕ) (o : Option Cell)
      → d ≢ 0
      → count (s.heap d) ≡ count o + 1
      → (s.next ≤ d → o ≡ none)
      → Inv lost (λ e. owed e + hit d e) (record s { heap = update s.heap d o })
  lowered-Inv d o nz less old = record {
    owned = λ e ne. ground (arith, i.owned e ne, less);
    fresh = λ e above. ground (arith, i.fresh e, old);
    small = λ e. ground (arith, i.small e, less);
    null_free = ground (arith, i.null_free);
    next_pos = i.next_pos;
  }

module _ (lost owed : ℕ → ℕ) (s : State) where
  pub raised-Inv :
      (d : ℕ) (c : Cell)
      → Inv lost (λ e. owed e + hit d e) s
      → s.heap d ≡ some c
      → d ≢ 0
      → c.counter + 1 < u32_mod
      → Inv lost owed
          (record s { heap = update s.heap d (some (record c { counter = inc32 c.counter })) })
  raised-Inv d c i there nz room = record {
    owned = λ e ne. ground (arith, i.owned e ne, there);
    fresh = λ e above. ground (arith, i.fresh e, there);
    small = λ e. ground (arith, i.small e);
    null_free = ground (arith, i.null_free);
    next_pos = i.next_pos;
  }

  pub set-Inv :
      (l : ℕ) (p q : Handle)
      → find_key l s.objs ≡ some p
      → Inv lost (λ d. owed d + hit p.data_ptr d) s
      → Inv lost (λ d. owed d + hit q.data_ptr d) (record s { objs = set_key l q s.objs })
  set-Inv l p q here i = record {
    owned = λ d nz. omega (arith, i.owned d nz, tally-set l (λ r. r.data_ptr) d q p s.objs here);
    fresh = i.fresh;
    small = i.small;
    null_free = i.null_free;
    next_pos = i.next_pos;
  }

  pub erased-Inv :
      (l : ℕ) (p : Handle)
      → find_key l s.objs ≡ some p
      → Inv lost (λ d. owed d + hit p.data_ptr d) s
      → Inv lost owed (record s { objs = erase_key l s.objs })
  erased-Inv l p here i = record {
    owned = λ d nz. omega (arith, i.owned d nz, tally-erase l (λ r. r.data_ptr) d p s.objs here);
    fresh = i.fresh;
    small = i.small;
    null_free = i.null_free;
    next_pos = i.next_pos;
  }
