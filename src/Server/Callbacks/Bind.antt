-- ===== src/Server/Callbacks/Bind.antt =====
-- The resource that a client gets when it binds to a global: `global_t::bind_func` and the constructor
-- of the generated class.
use waylandpp.Prelude.{
  ℕ, suc, ◌≡◌, ◌≢◌, refl, ap, ◌∙◌, true, false, some, List, [], ◌∷◌, arith, ◌==◌, ==_self,
  if◌then◌else◌, ◌++◌, ◌<◌, Bool-cases, inl, inr, ne_false,
}
use waylandpp.Prelude.Assoc.{Assoc, find_key, set_key, erase_key}
use waylandpp.Runtime.{ok, and_then, Env, inc32}
use waylandpp.Server.Store.{
  Handle, Cell, of_client, of_resource, of_global, GlobalData, ServerCall, wl_client_get_user_data,
  wl_resource_get_user_data, ClientData, wl_resource_create, handler, State, update, get_ok,
  load_ok, init_by, call_all, bare, copy_construct_by, destroy_by, retain, retain_some,
}
use waylandpp.Server.Store.Shared.{wrap_known}
use waylandpp.Server.Resource
use waylandpp.Server.Resource.Events.{set_first}
use waylandpp.Server.Client
use waylandpp.Server.Callbacks.{construct_generated, handle_bind, bind_func}
use waylandpp.Server.Callbacks.Created.{
  resource_calls, listener_calls, created, listened_state, generated_state, listener_lem,
}

module _ (env : Env ServerCall) (listening : List ServerCall → ℕ → List ℕ)
    (interface events dispatcher : ℕ) (s : State) (n client : ℕ) (q : Handle)
    (here : find_key client s.objs ≡ some q) (nz : q.native ≢ 0) (k : ℕ) (m : ClientData)
    (there : s.heap q.data_ptr ≡ some (record { counter = k; members = of_client m }))
    (old : q.data_ptr < s.next) (r id version : ℕ) (rz : r ≢ 0)
    (made : env.pointer s.calls (wl_resource_create q.native interface id version) ≡ r)
    (listens : listening (wl_resource_create q.native interface id version ∷ s.calls) q.native
      ≡ q.data_ptr ∷ [])
    (unknown : env.pointer
        (wl_resource_create q.native interface id version ∷ s.calls)
        (wl_resource_get_user_data r)
      ≡ 0) where
  abbrev asked : State
  asked = record s { calls = wl_resource_create q.native interface id version ∷ s.calls }

  abbrev listened : State
  listened = listened_state n r m.resource_created asked

  construct_new_lem :
      Resource.construct_new env listening n client interface id version s
      ≡ ok tt (created n r listened)
  unfolding Resource.construct_new Resource.init init_by call_all set_key find_key
  construct_new_lem =
      let placed : State = record listened { objs = (n, bare r) ∷ s.objs } in
      rw
        (
          get_ok client q s here,
          ne_false q.native nz,
          made,
          listens,
          listener_lem env asked n q.data_ptr r k m rz unknown there old,
          get_ok n (bare r) placed (rw (==_self n) refl),
          ==_self n,
        )
        refl

  -- For a client that has data, which alone listens for its new resources, and a resource that has no
  -- user data when the library has made it: the constructor `name_t(client, id, version)` of a generated
  -- class makes a resource with the data, the events and the dispatcher of the class. In its call of
  -- `wl_resource_create` the id stands where the version belongs, and the version where the id belongs;
  -- and before its own data the client's listener makes other data for the resource, which stays with
  -- counter 1 and no handle.
  pub generated_resource_lem :
      construct_generated env listening interface events dispatcher n client id version s
      ≡ ok tt (generated_state events dispatcher n r listened)
  unfolding construct_generated find_key
  generated_resource_lem =
      ap (λ o. and_then o (λ _. Resource.set_events n events dispatcher)) construct_new_lem
      ∙ set_first (created n r listened) n (record { native = r; data_ptr = suc s.next }) 1
          Resource.new_data (rw (==_self n) refl) (rw (==_self (suc s.next)) refl) events dispatcher
          refl rz

-- What `bind_func` does with the program's function, in a state that has the client in `c` and the
-- resource in `r`: both are copied for the call, and the copies go.
module _ (s : State) (c r client res f : ℕ) (pc pr : Handle) (kc kr : Cell)
    (has_client : find_key c s.objs ≡ some pc) (has_resource : find_key r s.objs ≡ some pr)
    (ne : (client == r) ≡ false) (apart : (pc.data_ptr == pr.data_ptr) ≡ false)
    (there : s.heap pc.data_ptr ≡ some kc) (there_too : s.heap pr.data_ptr ≡ some kr)
    (nz : pr.data_ptr ≢ 0) (set : f ≢ 0) where
  abbrev handled : State
  handled = record s {
    heap =
        update (update s.heap pc.data_ptr (some (record kc { counter = inc32 kc.counter })))
          pr.data_ptr (some (record kr { counter = inc32 kr.counter }));
    calls = handler f (client ∷ res ∷ []) ∷ s.calls;
  }

  handle_bind_lem : handle_bind c r client res f s ≡ ok tt handled
  unfolding handle_bind Client.copy_construct copy_construct_by Resource.copy_construct retain
      retain_some Resource.destroy Client.destroy destroy_by find_key erase_key
  handle_bind_lem =
      let one : State = record s { objs = (client, pc) ∷ s.objs } in
      let two : State = record one {
        heap = update s.heap pc.data_ptr (some (record kc { counter = inc32 kc.counter }));
      } in
      let three : State = record two { objs = (res, pr) ∷ two.objs } in
      let four : State = record three { heap = handled.heap; calls = handled.calls } in
      let five : State = record four { objs = one.objs } in
      rw
        (
          ne_false f set,
          get_ok c pc s has_client,
          load_ok pc.data_ptr kc one there,
          get_ok r pr two (rw ne has_resource),
          ne_false pr.data_ptr nz,
          load_ok pr.data_ptr kr three (rw apart there_too),
          get_ok res pr four (rw (==_self res) refl),
          ==_self res,
          get_ok client pc five (rw (==_self client) refl),
          ==_self client,
        )
        refl

no_handler :
    (c r client res f : ℕ) (s : State) → (f == 0) ≡ true → handle_bind c r client res f s ≡ ok tt s
unfolding handle_bind
no_handler c r client res f s null = rw null refl

-- The objects of `bind_func` go.
ends_lem :
    (s : State) (c r : ℕ) (pc pr : Handle) (os : Assoc Handle)
    → s.objs ≡ (r, pr) ∷ (c, pc) ∷ os
    → and_then (Resource.destroy r s) (λ _. Client.destroy c) ≡ ok tt (record s { objs = os })
unfolding Resource.destroy Client.destroy destroy_by find_key erase_key
ends_lem s c r pc pr os e =
    let one : State = record s { objs = (c, pc) ∷ os } in
    rw
      (
        get_ok r pr s (rw (e, ==_self r) refl),
        e,
        ==_self r,
        get_ok c pc one (rw (==_self c) refl),
        ==_self c,
      )
      refl

pub known_client :
    (env : Env ServerCall) (s : State) (c cl cd : ℕ) (kc : Cell)
    → cl ≢ 0
    → env.pointer s.calls (wl_client_get_user_data cl) ≡ cd
    → cd ≢ 0
    → s.heap cd ≡ some kc
    → Client.construct env c cl s
      ≡ ok tt (record s {
        objs = (c, record { native = cl; data_ptr = cd }) ∷ s.objs;
        heap = update s.heap cd (some (record kc { counter = inc32 kc.counter }));
        calls = wl_client_get_user_data cl ∷ s.calls;
      })
unfolding Client.construct Client.init
known_client env s c cl cd kc clz knows cdz there =
    wrap_known env "client is null." (λ p. of_client (Client.new_data p)) Client.listeners
      wl_client_get_user_data c cl clz s cd kc knows cdz there

-- For a client whose data the library knows and notifies, alone, of its new resources, and a resource
-- that has no user data when the library has made it: when the client `cl` binds, it gets a resource
-- with the version and the id that it asked for, whose data has the events of the class and which has
-- its dispatcher; the program's function for the global, if there is one, runs after that, on a client
-- and a resource, and its copy of the resource stays counted; no object is left; and the data that the
-- client's listener has made for the resource stays with counter 1.
pub bind_lem :
    (env : Env ServerCall) (listening : List ServerCall → ℕ → List ℕ) (s : State)
    (interface events dispatcher c r client res : ℕ)
    → (cl d ver id cd rn kc kd : ℕ) (mc : ClientData) (m : GlobalData) → (r == c) ≡ false
    → (client == r) ≡ false
    → cl ≢ 0
    → env.pointer s.calls (wl_client_get_user_data cl) ≡ cd
    → cd ≢ 0
    → s.heap cd ≡ some (record { counter = kc; members = of_client mc })
    → env.pointer (wl_client_get_user_data cl ∷ s.calls) (wl_resource_create cl interface ver id)
      ≡ rn
    → rn ≢ 0
    → listening (wl_resource_create cl interface ver id ∷ wl_client_get_user_data cl ∷ s.calls) cl
      ≡ cd ∷ []
    → env.pointer
        (wl_resource_create cl interface ver id ∷ wl_client_get_user_data cl ∷ s.calls)
        (wl_resource_get_user_data rn)
      ≡ 0
    → s.heap d ≡ some (record { counter = kd; members = of_global m })
    → (cd == d) ≡ false
    → cd < s.next
    → d < s.next
    → (t : State) × ((bind_func env listening interface events dispatcher c r client res cl d ver id
            s
          ≡ ok tt t)
        × ((t.objs ≡ s.objs)
            × ((t.heap s.next
                  ≡ some (record { counter = 1; members = of_resource Resource.new_data }))
                × ((t.heap (suc s.next)
                      ≡ some (record {
                        counter = if m.bind == 0 then 1 else 2;
                        members = of_resource (record Resource.new_data { events = events });
                      }))
                    × (t.calls
                        ≡ (if m.bind == 0 then [] else handler m.bind (client ∷ res ∷ []) ∷ [])
                          ++ resource_calls rn (suc s.next) dispatcher (
                              listener_calls r rn s.next mc.resource_created (
                                wl_resource_create cl interface ver id
                                ∷ wl_client_get_user_data cl
                                ∷ s.calls)))))))
unfolding bind_func find_key
bind_lem env listening s interface events dispatcher c r client res cl d ver id cd rn kc kd mc m rc
      cr clz knows cdz there made rnz listens unknown global apart oldc oldd =
    let pc : Handle = record { native = cl; data_ptr = cd } in
    let pr : Handle = record { native = rn; data_ptr = suc s.next } in
    let cell : ℕ → Cell = λ k. record { counter = k; members = of_client mc } in
    let wrapped : State = record s {
      objs = (c, pc) ∷ s.objs;
      heap = update s.heap cd (some (cell (inc32 kc)));
      calls = wl_client_get_user_data cl ∷ s.calls;
    } in
    let asked : State = record wrapped {
      calls = wl_resource_create cl interface ver id ∷ wrapped.calls;
    } in
    let bound : State =
      generated_state events dispatcher r rn (listened_state r rn mc.resource_created asked) in
    let kr : Cell = record {
      counter = 1;
      members = of_resource (record Resource.new_data { events = events });
    } in
    let new_c : (s.next == cd) ≡ false = ground (arith, oldc) in
    let new_d : (s.next == d) ≡ false = ground (arith, oldd) in
    let newer_c : (suc s.next == cd) ≡ false = ground (arith, oldc) in
    let newer_d : (suc s.next == d) ≡ false = ground (arith, oldd) in
    let newer : (suc s.next == s.next) ≡ false = ground arith in
    let old_c : (cd == suc s.next) ≡ false = ground (arith, oldc) in
    let old_c2 : (cd == s.next) ≡ false = ground (arith, oldc) in
    let known = known_client env s c cl cd (cell kc) clz knows cdz there in
    let generated =
      generated_resource_lem env listening interface events dispatcher wrapped r c pc
        (rw (==_self c) refl) clz (inc32 kc) mc (rw (==_self cd) refl) oldc rn ver id rnz made
        listens unknown in
    let read =
      load_ok d (record { counter = kd; members = of_global m }) bound
        (rw (newer_d, new_d, apart) global) in
    elim (Bool-cases (m.bind == 0)) [
      | inl null ↦ (
        record bound { objs = s.objs },
        (
          rw
              (
                known,
                generated,
                read,
                no_handler c r client res m.bind bound null,
                ends_lem bound c r pc pr s.objs refl,
              )
              refl,
          (
            refl,
            (rw (newer, ==_self s.next) refl, (rw (==_self (suc s.next), null) refl, rw null refl)),
          ),
        ),
      )
      | inr set ↦
          let ran : State = record bound {
            heap =
                update (update bound.heap cd (some (cell (inc32 (inc32 kc))))) (suc s.next)
                  (some (record kr { counter = 2 }));
            calls = handler m.bind (client ∷ res ∷ []) ∷ bound.calls;
          } in
          let handled =
            handle_bind_lem bound c r client res m.bind pc pr (cell (inc32 kc)) kr
              (rw (rc, ==_self c) refl) (rw (==_self r) refl) cr old_c
              (rw (newer_c, new_c, ==_self cd) refl) (rw (==_self (suc s.next)) refl)
              (ground (arith, oldc)) (ground (arith, set)) in
          (
            record ran { objs = s.objs },
            (
              rw (known, generated, read, handled, ends_lem ran c r pc pr s.objs refl) refl,
              (
                refl,
                (
                  rw (newer, old_c2, ==_self s.next) refl,
                  (rw (==_self (suc s.next), set) refl, rw set refl),
                ),
              ),
            ),
          )
    ]
