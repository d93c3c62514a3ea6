-- ===== src/Util/Shared.antt =====
-- The objects of the classes that share a native object: `detail::refcounted_wrapper`, whose member is a
-- `std::shared_ptr` with a function of a C library that destroys the object, and the classes on top of
-- `detail::basic_wrapper` that keep such a pointer (include/wayland-util.hpp, include/wayland-cursor.hpp).
pub mod Blocks
pub mod Counts
pub mod Actions
pub mod Operations
pub mod Performed
pub mod Ends
pub mod Made
pub mod Holds
use waylandpp.Prelude.{
  ℕ, suc, ◌+◌, ◌-◌, ◌==◌, if◌then◌else◌, Bool, true, false, Option, none, some, List, [], ◌∷◌,
}
use waylandpp.Prelude.Assoc.{Assoc, find_key, set_key, erase_key}
use waylandpp.Runtime.{runtime_error, ok, M, pure, throw, undefined, ◌>>=◌, ◌>>◌}

-- The functions that destroy the native objects
pub data Destroyer : Type 0 where
  wl_event_queue_destroy wl_cursor_theme_destroy wl_egl_window_destroy : Destroyer
  wl_event_source_remove : Destroyer

-- What a `shared_ptr` keeps with its object: how many share it. At 0 the object has been destroyed.
pub record Block : Type 0 where
  pub object : ℕ
  pub destroyer : Destroyer
  pub uses : ℕ

-- The members: the pointer of `basic_wrapper`, 0 for null, and the block of the `shared_ptr`, 0 for an empty
-- one. A `refcounted_wrapper` has no pointer of its own, so that this is 0.
pub record Wrapper : Type 0 where
  pub pointer : ℕ
  pub block : ℕ

abbrev pub empty : Wrapper
empty = record { pointer = 0; block = 0 }

-- Calls of the libraries: those that destroy, and all others, which are told apart by `C`
pub data Call (C : Type 0) : Type 0 where
  destroys_native : Destroyer → ℕ → Call C
  other : C → Call C

-- `next` is the next block, `calls` the calls so far, the last one first.
pub record State (C : Type 0) : Type 0 where
  pub objs : Assoc Wrapper
  pub blocks : Assoc Block
  pub next : ℕ
  pub calls : List (Call C)

abbrev pub Exec : Type 0 → Type 0 → Type 0
Exec C = M (State C)

module _ {C : Type 0} where
  unfoldable pub get : ℕ → Exec C Wrapper
  get l s = elim (find_key l s.objs) [ none ↦ undefined s | some p ↦ ok p s ]

  unfoldable pub load : ℕ → Exec C Block
  load d s = elim (find_key d s.blocks) [ none ↦ undefined s | some b ↦ ok b s ]

  abbrev pub put : ℕ → Wrapper → Exec C (Unit {0})
  put l p s = ok tt (record s { objs = set_key l p s.objs })

  abbrev pub emplace : ℕ → Wrapper → Exec C (Unit {0})
  emplace l p s = ok tt (record s { objs = (l, p) ∷ s.objs })

  abbrev pub erase : ℕ → Exec C (Unit {0})
  erase l s = ok tt (record s { objs = erase_key l s.objs })

  abbrev pub store : ℕ → Block → Exec C (Unit {0})
  store d b s = ok tt (record s { blocks = set_key d b s.blocks })

  abbrev pub call : Call C → Exec C (Unit {0})
  call c s = ok tt (record s { calls = c ∷ s.calls })

  -- `std::shared_ptr(p, destroyer)`, also for a null pointer
  abbrev pub make_shared : ℕ → Destroyer → Exec C ℕ
  make_shared p destroyer s = ok s.next (record s {
    blocks = (s.next, record { object = p; destroyer = destroyer; uses = 1 }) ∷ s.blocks;
    next = suc s.next;
  })

  -- A copy of a `shared_ptr`
  unfoldable pub share : ℕ → Exec C (Unit {0})
  unfolding load
  share d = if d == 0 then pure tt else do b ← load d; store d (record b { uses = b.uses + 1 })

  -- The end of a `shared_ptr`; the last one destroys the object. One that is not counted any more would
  -- be undefined behaviour.
  unfoldable pub unshare : ℕ → Exec C (Unit {0})
  unfolding load
  unshare d = if d == 0 then pure tt else do
    b ← load d
    if b.uses == 0 then undefined else pure tt
    store d (record b { uses = b.uses - 1 })
    if b.uses == 1 then call (destroys_native b.destroyer b.object) else pure tt

  -- `refcounted_wrapper(std::shared_ptr<native_t>)`, from the native object
  unfoldable pub construct : (l p : ℕ) → Destroyer → Exec C (Unit {0})
  construct l p destroyer = do
    d ← make_shared p destroyer
    emplace l (record { pointer = 0; block = d })

  -- `basic_wrapper(native_t *)`, with a copy of the `shared_ptr` in the object `m`
  unfoldable pub construct_from : (l p m : ℕ) → Exec C (Unit {0})
  unfolding share
  construct_from l p m = do
    q ← get m
    share q.block
    emplace l (record { pointer = p; block = q.block })

  -- The assignment of the members of `q`: the `shared_ptr` counts the new object before it gives the old
  -- one up.
  unfoldable pub assign : ℕ → Wrapper → Exec C (Unit {0})
  unfolding share unshare
  assign l q = do p ← get l; share q.block; put l q; unshare p.block

  -- `operator=(const refcounted_wrapper &)`
  unfoldable pub copy_assign : ℕ → ℕ → Exec C (Unit {0})
  unfolding assign
  copy_assign l m = if l == m then pure tt else do q ← get m; assign l q

  -- `refcounted_wrapper(const refcounted_wrapper &)`
  unfoldable pub copy_construct : ℕ → ℕ → Exec C (Unit {0})
  unfolding copy_assign
  copy_construct l m = do emplace l empty; copy_assign l m

  -- `operator=(refcounted_wrapper &&)`
  unfoldable pub move_assign : ℕ → ℕ → Exec C (Unit {0})
  move_assign l m = do p ← get l; q ← get m; put l q; put m p

  -- `refcounted_wrapper(refcounted_wrapper &&)`
  unfoldable pub move_construct : ℕ → ℕ → Exec C (Unit {0})
  unfolding move_assign
  move_construct l m = do emplace l empty; move_assign l m

  -- The implicit copy constructor of `cursor_t` and `cursor_image_t`
  unfoldable pub cursor_copy_construct : ℕ → ℕ → Exec C (Unit {0})
  unfolding construct_from
  cursor_copy_construct l m = do q ← get m; construct_from l q.pointer m

  -- The implicit assignments of `cursor_t` and `cursor_image_t`, member by member: `basic_wrapper` swaps
  -- its pointer when it is moved, and the `shared_ptr` leaves an empty one; a move to itself changes nothing.
  unfoldable pub cursor_assign : ℕ → ℕ → Exec C (Unit {0})
  unfolding assign
  cursor_assign l m = do q ← get m; assign l q

  unfoldable pub cursor_move_assign : ℕ → ℕ → Exec C (Unit {0})
  unfolding unshare
  cursor_move_assign l m = if l == m then pure tt else do
    p ← get l
    q ← get m
    put l q
    put m (record { pointer = p.pointer; block = 0 })
    unshare p.block

  -- The destructor
  unfoldable pub destroy : ℕ → Exec C (Unit {0})
  unfolding unshare
  destroy l = do p ← get l; unshare p.block; erase l

  -- The native object of a `shared_ptr`, null for an empty one
  unfoldable pub native_of : ℕ → Exec C ℕ
  unfolding load
  native_of d = if d == 0 then pure 0 else do b ← load d; pure b.object

  -- `refcounted_wrapper::c_ptr`
  unfoldable pub c_ptr : ℕ → Exec C ℕ
  unfolding native_of
  c_ptr l = do
    p ← get l
    n ← native_of p.block
    if n == 0 then throw (runtime_error "Tried to access empty object") else pure n

  -- `basic_wrapper::c_ptr`
  unfoldable pub basic_c_ptr : ℕ → Exec C ℕ
  basic_c_ptr l = do
    p ← get l
    if p.pointer == 0 then throw (runtime_error "Tried to access empty object") else pure p.pointer

  -- `has_object` of both
  unfoldable pub has_object : ℕ → Exec C Bool
  unfolding native_of
  has_object l = do p ← get l; n ← native_of p.block; pure (if n == 0 then false else true)

  unfoldable pub basic_has_object : ℕ → Exec C Bool
  basic_has_object l = do p ← get l; pure (if p.pointer == 0 then false else true)

  -- `operator==` of both
  unfoldable pub is_equal : ℕ → ℕ → Exec C Bool
  unfolding native_of
  is_equal l m = do
    p ← get l
    q ← get m
    x ← native_of p.block
    y ← native_of q.block
    pure (x == y)

  unfoldable pub basic_is_equal : ℕ → ℕ → Exec C Bool
  basic_is_equal l m = do p ← get l; q ← get m; pure (p.pointer == q.pointer)
