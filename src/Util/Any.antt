-- ===== src/Util/Any.antt =====
-- `detail::any` of include/wayland-util.hpp: an object that owns a value of any type on the heap, in the
-- words of the class. A value stands for a `derived<T>`; `type_of` is its `type_info()`.
pub mod Values
pub mod Owners
pub mod Changes
pub mod Actions
pub mod Steps
pub mod Refines
use waylandpp.Prelude.{ℕ, suc, ◌==◌, if◌then◌else◌, Option, none, some, List, [], ◌∷◌}
use waylandpp.Prelude.Assoc.{Assoc, find_key, set_key, erase_key}
use waylandpp.Runtime.{ok, M, pure, throw, undefined, bad_cast, ◌>>=◌, ◌>>◌}

module _ (V : Type 0) where
  -- The member `val` of each object, 0 for null, and what is on the heap; `next` is the address of the
  -- next allocation.
  pub record State : Type 0 where
    pub objs : Assoc ℕ
    pub heap : ℕ → Option V
    pub next : ℕ

  abbrev pub Exec : Type 0 → Type 0
  Exec = M State

module _ {V : Type 0} where
  abbrev pub update : (ℕ → Option V) → ℕ → Option V → ℕ → Option V
  update h d c e = if d == e then c else h e

  -- The member of an object, and the value at an address; a missing one is undefined behaviour.
  unfoldable pub get : ℕ → Exec V ℕ
  get l s = elim (find_key l s.objs) [ none ↦ undefined s | some p ↦ ok p s ]

  unfoldable pub load : ℕ → Exec V V
  load d s = elim (s.heap d) [ none ↦ undefined s | some v ↦ ok v s ]

  abbrev pub put : ℕ → ℕ → Exec V (Unit {0})
  put l p s = ok tt (record s { objs = set_key l p s.objs })

  abbrev pub emplace : ℕ → ℕ → Exec V (Unit {0})
  emplace l p s = ok tt (record s { objs = (l, p) ∷ s.objs })

  abbrev pub erase : ℕ → Exec V (Unit {0})
  erase l s = ok tt (record s { objs = erase_key l s.objs })

  abbrev pub store : ℕ → Option V → Exec V (Unit {0})
  store d c s = ok tt (record s { heap = update s.heap d c })

  -- `new derived<T>(v)`
  abbrev pub allocate : V → Exec V ℕ
  allocate v s = ok s.next (record s { heap = update s.heap s.next (some v); next = suc s.next })

  -- `delete val`, nothing for null
  unfoldable pub delete : ℕ → Exec V (Unit {0})
  unfolding load
  delete p = if p == 0 then pure tt else do v ← load p; store p none

  -- `val ? val->clone() : nullptr`
  unfoldable pub clone : ℕ → Exec V ℕ
  unfolding load
  clone p = if p == 0 then pure 0 else do v ← load p; allocate v

  -- `any()` and `any(const T &)`
  unfoldable pub construct : ℕ → Exec V (Unit {0})
  construct l = emplace l 0

  unfoldable pub construct_from : ℕ → V → Exec V (Unit {0})
  construct_from l v = do p ← allocate v; emplace l p

  -- `any(const any &)`
  unfoldable pub copy_construct : ℕ → ℕ → Exec V (Unit {0})
  unfolding clone
  copy_construct l m = do q ← get m; p ← clone q; emplace l p

  -- `operator=(any &&)`
  unfoldable pub move_assign : ℕ → ℕ → Exec V (Unit {0})
  move_assign l m = do p ← get l; q ← get m; put l q; put m p

  -- `any(any &&)`
  unfoldable pub move_construct : ℕ → ℕ → Exec V (Unit {0})
  unfolding move_assign
  move_construct l m = do emplace l 0; move_assign l m

  -- `~any()`
  unfoldable pub destroy : ℕ → Exec V (Unit {0})
  unfolding delete
  destroy l = do p ← get l; delete p; erase l

  -- `operator=(const any &)`
  unfoldable pub copy_assign : ℕ → ℕ → Exec V (Unit {0})
  unfolding delete clone
  copy_assign l m =
      if l == m then pure tt else do p ← get l; delete p; q ← get m; r ← clone q; put l r

  module _ (type_of : V → ℕ) where
    -- `delete val; val = new derived<T>(t)`
    unfoldable pub replace : (l p : ℕ) → V → Exec V (Unit {0})
    unfolding delete
    replace l p v = do delete p; r ← allocate v; put l r

    -- `operator=(const T &)`: a value of the same type is overwritten in its place.
    unfoldable pub assign : ℕ → V → Exec V (Unit {0})
    unfolding replace load
    assign l v = do
      p ← get l
      if p == 0
          then replace l p v
          else do old ← load p; if type_of v == type_of old then store p (some v) else replace l p v

    -- `get<T>()`, the value if it has the type
    unfoldable pub get_as : (l type : ℕ) → Exec V V
    unfolding load
    get_as l type = do
      p ← get l
      if p == 0
          then throw bad_cast
          else do old ← load p; if type == type_of old then pure old else throw bad_cast
