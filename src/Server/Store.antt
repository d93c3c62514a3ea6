-- ===== src/Server/Store.antt =====
-- The handles of the server library (`display_t`, `client_t`, `resource_t`, `global_base_t`,
-- `event_loop_t`) and the data that copies of a handle share (include/wayland-server.hpp), with what
-- the methods of all these classes do alike (src/wayland-server.cpp).
pub mod Inv
pub mod Counted
pub mod Steps
pub mod Release
pub mod Wrap
pub mod History
pub mod Shared
use waylandpp.Prelude.{
  ◌++◌, Bool-cases, inl, inr, refl, ℕ, suc, ◌+◌, ◌≡◌, refl, Bool, true, false, Option, none, some,
  List, [], ◌∷◌, ◌==◌, if◌then◌else◌,
}
use waylandpp.Prelude.Assoc.{Assoc, find_key, set_key, erase_key}
use waylandpp.Prelude.Int.{ℤ}
use waylandpp.Runtime.{
  runtime_error, ok, fault, M, pure, throw, undefined, ◌>>=◌, ◌>>◌, inc32, dec32, Env,
}
use Prim.Native.String.{String}

-- The members of a handle: the native object and the shared data, 0 for null
pub record Handle : Type 0 where
  pub native : ℕ
  pub data_ptr : ℕ

abbrev pub null_handle : Handle
null_handle = record { native = 0; data_ptr = 0 }

-- `data_t` of each class, without its counter; a function is an address, 0 for an empty one. The
-- listeners are members of the data and have its address; `user_data` is the program's.
pub record DisplayData : Type 0 where
  pub destroy : ℕ
  pub client_created : ℕ
  pub filter_func : ℕ

pub record ClientData : Type 0 where
  pub client : ℕ
  pub destroy : ℕ
  pub destroyed : Bool
  pub destroy_late : ℕ
  pub resource_created : ℕ

pub record ResourceData : Type 0 where
  pub events : ℕ
  pub destroy : ℕ

-- Of `global_base_t` and, with `bind`, of `global_t`
pub record GlobalData : Type 0 where
  pub removed : Bool
  pub bind : ℕ

pub record LoopData : Type 0 where
  pub destroy : ℕ
  pub fd_funcs : List ℕ
  pub timer_funcs : List ℕ
  pub signal_funcs : List ℕ
  pub idle_funcs : List ℕ
  pub do_delete : Bool

pub data Members : Type 0 where
  of_display : DisplayData → Members
  of_client : ClientData → Members
  of_resource : ResourceData → Members
  of_global : GlobalData → Members
  of_loop : LoopData → Members

pub record Cell : Type 0 where
  pub counter : ℕ
  pub members : Members

-- The implementation that a resource's dispatcher gets: `dummy_dispatcher`, or the function of a
-- generated class
pub data Dispatcher : Type 0 where
  dummy : Dispatcher
  generated : ℕ → Dispatcher

-- The functions of libwayland-server that the code calls, with their arguments, and `handler`, the
-- call of a function that the program has set.
pub data ServerCall : Type 0 where
  wl_display_create wl_event_loop_create : ServerCall
  wl_display_get_destroy_listener wl_display_destroy_clients wl_display_destroy : ℕ → ServerCall
  wl_display_get_event_loop wl_display_terminate wl_display_run : ℕ → ServerCall
  wl_display_flush_clients wl_display_get_serial wl_display_next_serial : ℕ → ServerCall
  wl_display_add_socket_auto wl_display_get_client_list : ℕ → ServerCall
  wl_display_add_destroy_listener wl_display_add_client_created_listener : ℕ → ℕ → ServerCall
  wl_display_add_socket wl_display_add_socket_fd wl_display_set_global_filter : ℕ → ℕ → ServerCall
  wl_display_set_default_max_buffer_size : ℕ → ℕ → ServerCall
  wl_client_create : ℕ → ℕ → ServerCall
  wl_client_get_user_data wl_client_flush wl_client_get_fd wl_client_get_credentials :
      ℕ → ServerCall
  wl_client_post_no_memory wl_client_get_display wl_client_for_each_resource : ℕ → ServerCall
  wl_client_set_user_data wl_client_add_destroy_listener : ℕ → ℕ → ServerCall
  wl_client_add_destroy_late_listener wl_client_add_resource_created_listener : ℕ → ℕ → ServerCall
  wl_client_get_object wl_client_post_implementation_error : ℕ → ℕ → ServerCall
  wl_client_set_max_buffer_size : ℕ → ℕ → ServerCall
  wl_resource_create : ℕ → ℕ → ℕ → ℕ → ServerCall
  wl_resource_get_user_data wl_resource_get_client wl_resource_get_id : ℕ → ServerCall
  wl_resource_get_version wl_resource_get_class wl_resource_post_no_memory : ℕ → ServerCall
  wl_resource_set_user_data wl_resource_add_destroy_listener : ℕ → ℕ → ServerCall
  wl_resource_set_dispatcher : ℕ → Dispatcher → ℕ → ServerCall
  wl_resource_post_error : ℕ → ℕ → ℕ → ServerCall
  wl_resource_post_event_array wl_resource_queue_event_array : ℕ → ℕ → List ℕ → ServerCall
  wl_global_create : ℕ → ℕ → ℕ → ℕ → ℕ → ServerCall
  wl_global_get_user_data wl_global_get_interface wl_global_destroy : ℕ → ServerCall
  wl_global_remove wl_global_get_version wl_global_get_display : ℕ → ServerCall
  wl_global_set_user_data wl_global_get_name : ℕ → ℕ → ServerCall
  wl_event_loop_get_destroy_listener wl_event_loop_destroy : ℕ → ServerCall
  wl_event_loop_dispatch_idle wl_event_loop_get_fd wl_event_source_check : ℕ → ServerCall
  wl_event_loop_add_destroy_listener wl_event_loop_add_timer wl_event_loop_add_idle :
      ℕ → ℕ → ServerCall
  wl_event_loop_dispatch wl_event_source_timer_update wl_event_source_fd_update : ℕ → ℕ → ServerCall
  wl_event_loop_add_fd : ℕ → ℕ → ℕ → ℕ → ServerCall
  wl_event_loop_add_signal : ℕ → ℕ → ℕ → ServerCall
  handler : ℕ → List ℕ → ServerCall

abbrev pub Heap : Type 0
Heap = ℕ → Option Cell

-- `next` is the address of the next allocation, `calls` the calls so far, the last one first.
pub record State : Type 0 where
  pub objs : Assoc Handle
  pub heap : Heap
  pub next : ℕ
  pub calls : List ServerCall

abbrev pub update : Heap → ℕ → Option Cell → Heap
update h d c e = if d == e then c else h e

abbrev pub Exec : Type 0 → Type 0
Exec = M State

-- Reads of the handle in a variable and of the data at an address; a missing one is undefined
-- behaviour.
unfoldable pub get : ℕ → Exec Handle
get l s = elim (find_key l s.objs) [ none ↦ undefined s | some p ↦ ok p s ]

unfoldable pub load : ℕ → Exec Cell
load d s = elim (s.heap d) [ none ↦ undefined s | some c ↦ ok c s ]

pub get_ok : (l : ℕ) (p : Handle) (s : State) → find_key l s.objs ≡ some p → get l s ≡ ok p s
unfolding get
get_ok l p s e = rw (e, get)

pub load_ok : (d : ℕ) (c : Cell) (s : State) → s.heap d ≡ some c → load d s ≡ ok c s
unfolding load
load_ok d c s e = rw (e, load)

pub load_gone : (d : ℕ) (s : State) → s.heap d ≡ none → load d s ≡ fault
unfolding load
load_gone d s e = rw (e, load)

pub load_null : (s : State) → s.heap 0 ≡ none → load 0 s ≡ fault
load_null s e = load_gone 0 s e

abbrev pub put : ℕ → Handle → Exec (Unit {0})
put l p s = ok tt (record s { objs = set_key l p s.objs })

abbrev pub emplace : ℕ → Handle → Exec (Unit {0})
emplace l p s = ok tt (record s { objs = (l, p) ∷ s.objs })

abbrev pub erase : ℕ → Exec (Unit {0})
erase l s = ok tt (record s { objs = erase_key l s.objs })

abbrev pub store : ℕ → Option Cell → Exec (Unit {0})
store d c s = ok tt (record s { heap = update s.heap d c })

abbrev pub call : ServerCall → Exec (Unit {0})
call c s = ok tt (record s { calls = c ∷ s.calls })

-- The calls so far, on which the answer of the library may depend
abbrev pub calls_so_far : Exec (List ServerCall)
calls_so_far s = ok s.calls s

abbrev pub ask : Env ServerCall → ServerCall → Exec ℕ
ask env c s = ok (env.pointer s.calls c) (record s { calls = c ∷ s.calls })

abbrev pub ask_int : Env ServerCall → ServerCall → Exec ℤ
ask_int env c s = ok (env.int s.calls c) (record s { calls = c ∷ s.calls })

-- `if(f) f(args)` for a function that the program has set
abbrev pub notify : ℕ → List ℕ → Exec (Unit {0})
notify f args = if f == 0 then pure tt else call (handler f args)

pub notify_ok :
    (f : ℕ) (args : List ℕ) (s : State)
    → notify f args s
      ≡ ok tt (record s { calls = (if f == 0 then [] else handler f args ∷ []) ++ s.calls })
notify_ok f args s = elim (Bool-cases (f == 0)) [ inl e ↦ rw e refl | inr e ↦ rw e refl ]

-- `new data_t`, its counter 1
abbrev pub allocate : Members → Exec ℕ
allocate m s = ok s.next (record s {
  heap = update s.heap s.next (some (record { counter = 1; members = m }));
  next = suc s.next;
})

-- `c_ptr()` of each class, with its message
abbrev pub c_ptr : String → Handle → Exec ℕ
c_ptr message p = if p.native == 0 then throw (runtime_error message) else pure p.native

-- `data->counter++`
unfoldable pub retain : ℕ → Exec (Unit {0})
retain d = do c ← load d; store d (some (record c { counter = inc32 c.counter }))

-- `if(data) data->counter++`
unfoldable pub retain_some : ℕ → Exec (Unit {0})
unfolding retain
retain_some d = if d == 0 then pure tt else retain d

-- `data->counter--`, and `last` when the counter has come to 0
unfoldable pub release : (Handle → Cell → Exec (Unit {0})) → Handle → Exec (Unit {0})
release last p = do
  c ← load p.data_ptr
  let left = record c { counter = dec32 c.counter }
  store p.data_ptr (some left)
  if left.counter == 0 then last p left else pure tt

-- The methods that all classes have, from what a class does to give up and to take a reference. A
-- new object is placed before it is filled.
unfoldable pub copy_construct_by : (ℕ → Exec (Unit {0})) → ℕ → ℕ → Exec (Unit {0})
copy_construct_by take l from = do p ← get from; emplace l p; take p.data_ptr

unfoldable pub swap : ℕ → ℕ → Exec (Unit {0})
swap l from = do p ← get l; q ← get from; put l q; put from p

unfoldable pub move_construct_by : ℕ → ℕ → Exec (Unit {0})
unfolding swap
move_construct_by l from = do emplace l null_handle; swap l from

unfoldable pub copy_assign_by :
    (Handle → Exec (Unit {0})) → (ℕ → Exec (Unit {0})) → ℕ → ℕ → Exec (Unit {0})
copy_assign_by give take l from =
    if l == from then pure tt else do p ← get l; give p; q ← get from; put l q; take q.data_ptr

unfoldable pub destroy_by : (Handle → Exec (Unit {0})) → ℕ → Exec (Unit {0})
destroy_by give l = do p ← get l; give p; erase l

-- Calls whose results are not used, in the order of the list
unfoldable pub call_all : List ServerCall → Exec (Unit {0})
call_all [] s = ok tt s
call_all (c ∷ cs) s = (call c >> call_all cs) s

-- `init()`: new data for the handle in `n`, and what the class makes known to the library
unfoldable pub init_by : (Handle → Members) → (Handle → List ServerCall) → ℕ → Exec (Unit {0})
unfolding call_all
init_by members known n = do
  p ← get n
  d ← allocate (members p)
  put n (record p { data_ptr = d })
  call_all (known (record p { data_ptr = d }))

abbrev pub bare : ℕ → Handle
bare p = record { native = p; data_ptr = 0 }

-- The constructor from a native object, whose data `find` finds or `init` makes; `c_ptr()` throws
-- for a null pointer, and there is no object then.
unfoldable pub wrap_by :
    Env ServerCall → String → (ℕ → ServerCall) → (ℕ → Exec (Unit {0})) → ℕ → ℕ → Exec (Unit {0})
unfolding retain
wrap_by env message find init n p = if p == 0 then throw (runtime_error message) else do
  emplace n (bare p)
  d ← ask env (find p)
  if d == 0 then init n else do put n (record { native = p; data_ptr = d }); retain d
