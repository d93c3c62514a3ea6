-- ===== src/Client/Proxy.antt =====
-- `proxy_t` of src/wayland-client.cpp: the objects, the data that copies of one proxy share, and
-- the calls of libwayland-client that the code makes.
pub mod Objects
pub mod Methods
pub mod Invariant
pub mod Release
pub mod Destroy
pub mod Destructor
pub mod Copies
pub mod Construct
pub mod Lifecycle
pub mod Wrapper
pub mod Settings
pub mod History
pub mod Last
mod Tests
use Prim.Native.String.{String}
use waylandpp.Prelude.{
  ℕ, zero, suc, ◌+◌, ◌≡◌, refl, Bool, true, false, not, ◌&&◌, ◌||◌, Option, none, some, List, [],
  ◌∷◌, ◌==◌, if◌then◌else◌,
}
use waylandpp.Prelude.Int.{ℤ, is_negative}
use waylandpp.Runtime.{
  invalid_argument, runtime_error, logic_error, ok, out_of_fuel, M, pure, throw, undefined, ◌>>=◌,
  ◌>>◌, and_then, swallow, inc32, dec32, Env,
}
use Objects.{
  WrapperType, standard, display, foreign, proxy_wrapper, Proxy, Loc, wrapped, Objs, null_proxy,
  get_obj, set_obj, erase_obj,
}

-- The functions of libwayland-client that this file's code calls, with their arguments.
pub data Call : Type 0 where
  wl_proxy_get_user_data : ℕ → Call
  wl_proxy_set_user_data : ℕ → ℕ → Call
  wl_proxy_marshal : ℕ → ℕ → Call
  wl_proxy_destroy wl_proxy_wrapper_destroy wl_display_disconnect wl_proxy_create_wrapper : ℕ → Call
  wl_proxy_add_dispatcher : ℕ → ℕ → ℕ → Call
  wl_proxy_set_queue : ℕ → ℕ → Call
  wl_proxy_marshal_array : ℕ → ℕ → List ℕ → Call
  wl_proxy_marshal_array_constructor : ℕ → ℕ → List ℕ → ℕ → Call
  wl_display_connect_to_fd : ℤ → Call
  wl_display_connect : Option String → Call
  wl_proxy_get_id wl_proxy_get_class wl_proxy_get_version : ℕ → Call
  wl_proxy_marshal_array_constructor_versioned : ℕ → ℕ → List ℕ → ℕ → ℕ → Call

-- `proxy_data_t` without its `wrapped_proxy`, which is the object at `wrapped d` for the data at d.
-- Pointers, queues and listener storage are addresses, 0 for null.
pub record ProxyData : Type 0 where
  pub events : ℕ
  pub has_destroy_opcode : Bool
  pub destroy_opcode : ℕ
  pub counter : ℕ
  pub queue : ℕ

abbrev pub Heap : Type 0
Heap = ℕ → Option ProxyData

-- `next` is the address of the next allocation, `calls` the calls so far, the last one first.
pub record State : Type 0 where
  pub objs : Objs
  pub heap : Heap
  pub next : ℕ
  pub calls : List Call

abbrev pub update : Heap → ℕ → Option ProxyData → Heap
update h d c e = if d == e then c else h e

abbrev pub Exec : Type 0 → Type 0
Exec = M State

-- Reads of the object at `l` and of the data at `d`; a missing one is undefined behaviour.
unfoldable pub get : Loc → Exec Proxy
get l s = elim (get_obj l s.objs) [ none ↦ undefined s | some p ↦ ok p s ]

abbrev pub put : Loc → Proxy → Exec (Unit {0})
put l p s = ok tt (record s { objs = set_obj l p s.objs })

unfoldable pub load : ℕ → Exec ProxyData
load d s = elim (s.heap d) [ none ↦ undefined s | some c ↦ ok c s ]

abbrev pub store : ℕ → Option ProxyData → Exec (Unit {0})
store d c s = ok tt (record s { heap = update s.heap d c })

-- A call whose result is not used.
abbrev pub call : Call → Exec (Unit {0})
call c s = ok tt (record s { calls = c ∷ s.calls })

-- `proxy_t::c_ptr`
unfoldable pub c_ptr : Proxy → Exec ℕ
c_ptr p = if p.proxy == 0 then throw (invalid_argument "proxy is NULL") else pure p.proxy

-- A new object at the address `l`.
abbrev pub emplace : Loc → Proxy → Exec (Unit {0})
emplace l p s = ok tt (record s { objs = (l, p) ∷ s.objs })

abbrev pub new_data : ℕ → ProxyData
new_data queue = record {
  events = 0;
  has_destroy_opcode = false;
  destroy_opcode = 0;
  counter = 1;
  queue = queue;
}

-- `new proxy_data_t`, its queue set
abbrev pub allocate : ℕ → Exec ℕ
allocate queue s = ok s.next (record s {
  objs = (wrapped s.next, null_proxy) ∷ s.objs;
  heap = update s.heap s.next (some (new_data queue));
  next = suc s.next;
})

abbrev pub is_foreign : WrapperType → Bool
is_foreign foreign = true
is_foreign _ = false

abbrev pub is_display : WrapperType → Bool
is_display display = true
is_display _ = false

-- `++data->counter`
unfoldable pub retain : ℕ → Exec (Unit {0})
retain d = do c ← load d; store d (some (record c { counter = inc32 c.counter }))

-- The switch of `proxy_release` on the wrapper type.
unfoldable pub free_native : Proxy → ProxyData → Exec (Unit {0})
free_native p c = elim p.type [
  | standard ↦ (do
    if c.has_destroy_opcode then call (wl_proxy_marshal p.proxy c.destroy_opcode) else pure tt
    call (wl_proxy_destroy p.proxy))
  | proxy_wrapper ↦ call (wl_proxy_wrapper_destroy p.proxy)
  | display ↦ call (wl_display_disconnect p.proxy)
  | foreign ↦ throw (logic_error "Invalid proxy_t type on destruction")
]

-- The end of `proxy_release`: both pointers of the object are reset.
unfoldable pub reset : Loc → Exec (Unit {0})
reset l = do p ← get l; put l (record p { proxy = 0; data_ptr = 0 })

-- What `proxy_release` does when the counter has come to 0; `destruct` runs the destructor of the
-- `wrapped_proxy` of the data that is deleted.
unfoldable pub delete_data : (Loc → Exec (Unit {0})) → Proxy → ProxyData → Exec (Unit {0})
delete_data destruct p c = do
  if p.proxy == 0 then pure tt else free_native p c
  destruct (wrapped p.data_ptr)
  store p.data_ptr none

-- `proxy_t::proxy_release`
unfoldable pub release : (Loc → Exec (Unit {0})) → Loc → Exec (Unit {0})
unfolding delete_data free_native reset
release destruct l = do
  p ← get l
  if p.data_ptr == 0 then reset l else do
    c ← load p.data_ptr
    let left = record c { counter = dec32 c.counter }
    store p.data_ptr (some left)
    if left.counter == 0 then delete_data destruct p left else pure tt
    reset l

-- The two reads where the object and the data are there.
pub get_ok : (l : Loc) (p : Proxy) (s : State) → get_obj l s.objs ≡ some p → get l s ≡ ok p s
unfolding get
get_ok l p s e = rw (e, get)

pub load_ok : (d : ℕ) (c : ProxyData) (s : State) → s.heap d ≡ some c → load d s ≡ ok c s
unfolding load
load_ok d c s e = rw (e, load)

abbrev pub erase : Loc → Exec (Unit {0})
erase l s = ok tt (record s { objs = erase_obj l s.objs })

-- `proxy_t::~proxy_t`; a wrapped proxy that goes with the last copy takes one more unit of fuel.
unfoldable pub destroy : ℕ → Loc → Exec (Unit {0})
unfolding release
destroy zero l s = out_of_fuel
destroy (suc k) l s = and_then (swallow (release (destroy k) l s)) (λ _. erase l)
