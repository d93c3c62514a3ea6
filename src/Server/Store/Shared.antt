-- ===== src/Server/Store/Shared.antt =====
-- Constructors from one native object: the first makes the data, the next share it.
use waylandpp.Prelude.{
  ℕ, suc, ◌≡◌, ◌≢◌, refl, ap, ◌∙◌, false, some, List, ◌∷◌, ◌==◌, ==_self, ne_false,
}
use waylandpp.Prelude.Assoc.{find_key, set_key}
use waylandpp.Runtime.{Outcome, ok, and_then, Env, inc32}
use waylandpp.Server.Store.{
  String, Handle, Cell, Members, ServerCall, State, update, get_ok, load_ok, init_by, bare, wrap_by,
  retain,
}
use waylandpp.Server.Store.Wrap.{log, call_all_lem}

module _ (env : Env ServerCall) (message : String) (members : Handle → Members)
    (known : Handle → List ServerCall) (find : ℕ → ServerCall) (n p : ℕ) (nz : p ≢ 0)
    (s : State) where
  -- The state that a constructor leaves when the library knows no data
  abbrev pub first_state : State
  first_state = record {
    objs = (n, record { native = p; data_ptr = s.next }) ∷ s.objs;
    heap = update s.heap s.next (some (record { counter = 1; members = members (bare p) }));
    next = suc s.next;
    calls = log (known (record { native = p; data_ptr = s.next })) (find p ∷ s.calls);
  }

  pub wrap_unknown :
      env.pointer s.calls (find p) ≡ 0
      → wrap_by env message find (init_by members known) n p s ≡ ok tt first_state
  unfolding wrap_by init_by set_key find_key
  wrap_unknown unknown =
      let q : Handle = record { native = p; data_ptr = s.next } in
      let asked : State = record s { objs = (n, bare p) ∷ s.objs; calls = find p ∷ s.calls } in
      let new : State = record first_state { calls = find p ∷ s.calls } in
      rw
        (
          ne_false p nz,
          unknown,
          get_ok n (bare p) asked (rw (==_self n) refl),
          ==_self n,
          call_all_lem (known q) new,
        )
        refl

  -- And when it knows data
  pub wrap_known :
      (d : ℕ) (c : Cell)
      → env.pointer s.calls (find p) ≡ d
      → d ≢ 0
      → s.heap d ≡ some c
      → wrap_by env message find (init_by members known) n p s
        ≡ ok tt (record s {
          objs = (n, record { native = p; data_ptr = d }) ∷ s.objs;
          heap = update s.heap d (some (record c { counter = inc32 c.counter }));
          calls = find p ∷ s.calls;
        })
  unfolding wrap_by retain set_key
  wrap_known d c knows dz there =
      let new : State = record s {
        objs = (n, record { native = p; data_ptr = d }) ∷ s.objs;
        calls = find p ∷ s.calls;
      } in
      rw (ne_false p nz, knows, ne_false d dz, ==_self n, load_ok d c new there) refl

-- What two constructors from the native object `p` leave: one data that both handles count, and the
-- calls of one `init`
pub record Shared (members : Handle → Members) (known : Handle → List ServerCall)
    (find : ℕ → ServerCall) (a b p : ℕ) (s : State) (o : Outcome State (Unit {0})) : Type 0 where
  pub after : State
  pub done : o ≡ ok tt after
  pub first : find_key a after.objs ≡ some (record { native = p; data_ptr = s.next })
  pub second : find_key b after.objs ≡ some (record { native = p; data_ptr = s.next })
  pub data_there : after.heap s.next ≡ some (record { counter = 2; members = members (bare p) })
  pub told :
      after.calls
      ≡ find p ∷ log (known (record { native = p; data_ptr = s.next })) (find p ∷ s.calls)

pub wrap_twice_lem :
    (env : Env ServerCall) (s : State) (a b p : ℕ) (members : Handle → Members)
    (known : Handle → List ServerCall) (find : ℕ → ServerCall) (message : String)
    → p ≢ 0
    → s.next ≢ 0
    → (b == a) ≡ false
    → env.pointer s.calls (find p) ≡ 0
    → env.pointer
        (log (known (record { native = p; data_ptr = s.next })) (find p ∷ s.calls))
        (find p)
      ≡ s.next
    → Shared members known find a b p s (
        and_then
          (wrap_by env message find (init_by members known) a p s)
          (λ _. wrap_by env message find (init_by members known) b p))
unfolding find_key
wrap_twice_lem env s a b p members known find message nz pos ne unknown knows =
    let one : State = first_state env message members known find a p nz s in
    let c : Cell = record { counter = 1; members = members (bare p) } in
    record {
      after = record one {
        objs = (b, record { native = p; data_ptr = s.next }) ∷ one.objs;
        heap = update one.heap s.next (some (record c { counter = 2 }));
        calls = find p ∷ one.calls;
      };
      done =
          ap (λ o. and_then o (λ _. wrap_by env message find (init_by members known) b p))
            (wrap_unknown env message members known find a p nz s unknown)
          ∙ wrap_known env message members known find b p nz one s.next c knows pos
              (rw (==_self s.next) refl);
      first = rw (ne, ==_self a) refl;
      second = rw (==_self b) refl;
      data_there = rw (==_self s.next) refl;
      told = refl;
    }
