-- ===== src/Server/DispatchTests.antt =====
-- The theorem of `resource_t::c_dispatcher` at a request with a new object, an integer and an object.
use waylandpp.Prelude.{ℕ, none, some, List, [], ◌∷◌, ◌==◌, if◌then◌else◌}
use waylandpp.Prelude.Int.{pos}
use waylandpp.Runtime.{Env}
use waylandpp.Server.Store.{Handle, of_client, ServerCall, wl_resource_create, State}
use waylandpp.Server.Store.Inv.{Inv}
use waylandpp.Server.Client
use waylandpp.Server.Resource
use waylandpp.Client.Dispatch.{WlArgument}

-- No object has user data, and a new resource is at 70.
abbrev library : Env ServerCall
library = record {
  pointer = λ cs c. elim c [ wl_resource_create q i v id ↦ 70 | _ ↦ 0 ];
  int = λ cs c. pos 0;
  errno = λ cs. 0;
}

abbrev client : Handle
client = record { native = 6; data_ptr = 1 }

-- A client in the variable 2
abbrev connected : State
connected = record {
  objs = (2, client) ∷ [];
  heap = λ d.
      if d == 1
      then some (record {
        counter = 1;
        members = of_client (Client.new_data (record { native = 6; data_ptr = 0 }));
      })
      else none;
  next = 2;
  calls = [];
}

abbrev wl_argument : ℕ → WlArgument
wl_argument n = record { i = pos n; u = n; h = pos n; f = pos n; s = none; o = n; n = n; a = none }

abbrev args : List WlArgument
args = wl_argument 9 ∷ wl_argument 17 ∷ wl_argument 64 ∷ []

-- The client's data has the listener.
abbrev one_listener : List ServerCall → ℕ → List ℕ
one_listener cs c = 1 ∷ []
