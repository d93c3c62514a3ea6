-- ===== src/Server/Client/Handles.antt =====
-- The handles of one `wl_client`: the data of a client is made once and shared, no handle gives its
-- reference up, and after the client's end nothing may read the data.
use waylandpp.Prelude.{ℕ, ◌≡◌, ◌≢◌, refl, false, none, some, ◌∷◌, ◌==◌, ==_self}
use waylandpp.Prelude.Assoc.{hit, find_key}
use waylandpp.Runtime.{fault, and_then, Env}
use waylandpp.Server.Store.{
  Handle, of_client, ServerCall, wl_client_get_user_data, State, load_gone, get_ok, retain, update,
}
use waylandpp.Server.Store.Inv.{Inv, no_refs}
use waylandpp.Server.Store.Counted.{Makes, Counted}
use waylandpp.Server.Store.Release.{loses_one, retain-Takes}
use waylandpp.Server.Store.Wrap.{IsKnown, wrap-Makes, log}
use waylandpp.Server.Store.Shared.{Shared, wrap_twice_lem}
use waylandpp.Server.Client.{
  new_data, listeners, init, construct, give_none, user_data_destroy_func, on_destroy, modify,
}

pub construct_lem :
    (env : Env ServerCall) (lost : ℕ → ℕ) (s : State) (n p : ℕ)
    → Inv lost no_refs s
    → (p ≢ 0) × IsKnown env wl_client_get_user_data p s
    → Makes lost n s (construct env n p s)
unfolding construct init
construct_lem env lost s n p i may =
    wrap-Makes env lost s n p wl_client_get_user_data "client is null."
      (λ q. of_client (new_data q)) listeners i may.0 may.1

abbrev pub client_handles : Env ServerCall → Counted
client_handles env = record {
  give = give_none;
  take = retain;
  construct = construct env;
  MayGive = λ p s. Unit {0};
  MayTake = λ d. d ≢ 0;
  MayConstruct = λ p s. (p ≢ 0) × IsKnown env wl_client_get_user_data p s;
  loses = λ p d. hit p.data_ptr d;
  give_lem = λ lost owed s p i may pos. loses_one lost owed p s i;
  take_lem = λ lost owed s d i nz pos room. retain-Takes lost owed s d i nz (pos nz) room;
  construct_lem = construct_lem env;
}

-- Two `client_t` made from the same `wl_client`, the first of which the library did not know, share
-- one data, which is made known to the library once, if the library returns what it was given.
pub client_data-Shared :
    (env : Env ServerCall) (s : State) (a b p : ℕ)
    → p ≢ 0
    → s.next ≢ 0
    → (b == a) ≡ false
    → env.pointer s.calls (wl_client_get_user_data p) ≡ 0
    → env.pointer
        (log
          (listeners (record { native = p; data_ptr = s.next }))
          (wl_client_get_user_data p ∷ s.calls))
        (wl_client_get_user_data p)
      ≡ s.next
    → Shared
        (λ q. of_client (new_data q))
        listeners
        wl_client_get_user_data
        a
        b
        p
        s
        (and_then (construct env a p s) (λ _. construct env b p))
unfolding construct init
client_data-Shared env s a b p nz pos ne unknown known =
    wrap_twice_lem env s a b p (λ q. of_client (new_data q)) listeners wl_client_get_user_data
      "client is null." nz pos ne unknown known

-- When the library has ended a client, a handle that is left refers to deleted data: to set a function
-- for the client's end with it is undefined behaviour.
pub ended_client-faults :
    (s : State) (n func : ℕ) (p : Handle)
    → find_key n s.objs ≡ some p
    → and_then (user_data_destroy_func p.data_ptr s) (λ _. on_destroy n func) ≡ fault
unfolding user_data_destroy_func on_destroy modify
ended_client-faults s n func p here =
    let t : State = record s { heap = update s.heap p.data_ptr none } in
    rw (get_ok n p t here, load_gone p.data_ptr t (rw (==_self p.data_ptr) refl)) refl
