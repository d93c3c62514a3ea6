-- ===== src/Server/Callbacks/Lists.antt =====
-- `display_t::get_client_list`: a list of handles, one for each client that the library has.
use waylandpp.Prelude.{
  ℕ, suc, ◌<◌, ◌≡◌, ◌≢◌, ◌⊎◌, refl, ◌∙◌, false, some, List, [], ◌∷◌, map, arith, ◌==◌, ==_self,
  Bool-cases, inl, inr,
}
use waylandpp.Prelude.Assoc.{find_key, set_key, erase_key}
use waylandpp.Runtime.{Outcome, ok, thrown, runtime_error, Env, inc32}
use waylandpp.Server.Store.{
  Handle, Cell, ServerCall, wl_client_get_user_data, wl_display_get_client_list, State, update,
  get_ok, move_construct_by, destroy_by, null_handle,
}
use waylandpp.Server.Store.Steps.{swap_ok}
use waylandpp.Server.Client
use waylandpp.Server.Callbacks.{push_back, push_all, get_client_list}
use waylandpp.Server.Callbacks.Bind.{known_client}

-- What the library and the program know of each client: its data, the same at each call, which is there
pub record Knows (env : Env ServerCall) (data_of : ℕ → ℕ) (s : State) (p : ℕ) : Type 0 where
  pub not_null : p ≢ 0
  pub has_data : data_of p ≢ 0
  pub answers : (cs : List ServerCall) → env.pointer cs (wl_client_get_user_data p) ≡ data_of p
  pub cell : Cell
  pub there : s.heap (data_of p) ≡ some cell

abbrev pub AllKnown : Env ServerCall → (ℕ → ℕ) → State → List ℕ → Type 0
AllKnown env data_of s [] = Unit {0}
AllKnown env data_of s (p ∷ ps) = Knows env data_of s p × AllKnown env data_of s ps

module _ (env : Env ServerCall) (data_of : ℕ → ℕ) where
  abbrev pub handle_of : ℕ → Handle
  handle_of p = record { native = p; data_ptr = data_of p }

  abbrev pushed : (at p : ℕ) → Cell → State → State
  pushed at p c s = record s {
    objs = (at, handle_of p) ∷ s.objs;
    heap = update s.heap (data_of p) (some (record c { counter = inc32 c.counter }));
    calls = wl_client_get_user_data p ∷ s.calls;
  }

  push_back_lem :
      (n at p : ℕ) (s : State) (k : Knows env data_of s p)
      → n < at
      → push_back env (Client.construct env) n at p s ≡ ok tt (pushed at p k.cell s)
  unfolding push_back move_construct_by destroy_by find_key set_key erase_key
  push_back_lem n at p s k lt =
      let ne : (at == n) ≡ false = ground (arith, lt) in
      let q : Handle = handle_of p in
      let made : State = record (pushed at p k.cell s) { objs = (n, q) ∷ s.objs } in
      let placed : State = record made { objs = (at, null_handle) ∷ made.objs } in
      let moved : State = record made { objs = (at, q) ∷ (n, null_handle) ∷ s.objs } in
      rw
        (
          known_client env s n p (data_of p) k.cell k.not_null (k.answers s.calls) k.has_data
              k.there,
          swap_ok at n null_handle q placed (rw (==_self at) refl) (rw (ne, ==_self n) refl),
          ==_self at,
          ne,
          ==_self n,
          get_ok n null_handle moved (rw (ne, ==_self n) refl),
          ne,
          ==_self n,
        )
        refl

  -- A push counts one reference more to one data.
  Knows-still :
      (s : State) (at p r : ℕ) (c : Cell)
      → Knows env data_of s r
      → Knows env data_of (pushed at p c s) r
  Knows-still s at p r c k = elim (Bool-cases (data_of p == data_of r)) [
    | inl same ↦ record {
      not_null = k.not_null;
      has_data = k.has_data;
      answers = k.answers;
      cell = record c { counter = inc32 c.counter };
      there = rw same refl;
    }
    | inr other ↦ record {
      not_null = k.not_null;
      has_data = k.has_data;
      answers = k.answers;
      cell = k.cell;
      there = rw other k.there;
    }
  ]

  still_known :
      (ps : List ℕ) (s : State) (at p : ℕ) (c : Cell)
      → AllKnown env data_of s ps
      → AllKnown env data_of (pushed at p c s) ps
  still_known [] s at p c h = tt
  still_known (r ∷ rs) s at p c (k, h) = (Knows-still s at p r c k, still_known rs s at p c h)

  asked_known :
      (ps : List ℕ) (s : State) (cs : List ServerCall)
      → AllKnown env data_of s ps
      → AllKnown env data_of (record s { calls = cs }) ps
  asked_known [] s cs h = tt
  asked_known (r ∷ rs) s cs (k, h) = (
    record {
      not_null = k.not_null;
      has_data = k.has_data;
      answers = k.answers;
      cell = k.cell;
      there = k.there;
    },
    asked_known rs s cs h,
  )

  -- What the loop leaves
  pub record Lists (at : ℕ) (ps : List ℕ) (s : State) (o : Outcome State (List ℕ)) : Type 0 where
    pub items : List ℕ
    pub after : State
    pub done : o ≡ ok items after
    pub handles : map (λ l. find_key l after.objs) items ≡ map (λ p. some (handle_of p)) ps
    pub kept : (l : ℕ) → l < at → find_key l after.objs ≡ find_key l s.objs

  -- The loop over clients whose data is there and known to the library
  pushes_lem :
      (n at : ℕ) (ps : List ℕ) (s : State)
      → n < at
      → AllKnown env data_of s ps
      → Lists at ps s (push_all env (Client.construct env) n at ps s)
  unfolding push_all find_key
  pushes_lem n at [] s lt h = record {
    items = [];
    after = s;
    done = refl;
    handles = refl;
    kept = λ l below. refl;
  }
  pushes_lem n at (p ∷ ps) s lt (k, h) =
      let rest =
        pushes_lem n (suc at) ps (pushed at p k.cell s) (omega (arith, lt))
          (still_known ps s at p k.cell h) in
      record {
        items = at ∷ rest.items;
        after = rest.after;
        done = rw (push_back_lem n at p s k lt, rest.done) refl;
        handles = rw (rest.kept at (omega arith), ==_self at, rest.handles) refl;
        kept = λ l below.
            let ne : (at == l) ≡ false = ground (arith, below) in
            rest.kept l (omega (arith, below)) ∙ rw ne refl;
      }

  -- Where the data of each client in the display's list is there and known to the library,
  -- `get_client_list` asks for the list of the display's native object, and returns a handle for each
  -- client, in the order of that list, with the client's data, and changes no other object; a display
  -- that is null it refuses with an exception, before it calls the library.
  pub client_list_lem :
      (listed : List ServerCall → ℕ → List ℕ) (display n at : ℕ) (p : Handle) (s : State)
      → n < at
      → find_key display s.objs ≡ some p
      → AllKnown env data_of s (listed (wl_display_get_client_list p.native ∷ s.calls) p.native)
      → ((p.native ≡ 0)
          × (get_client_list env listed display n at s
              ≡ thrown (runtime_error "display is null.") s))
        ⊎ ((p.native ≢ 0)
            × Lists at
                (listed (wl_display_get_client_list p.native ∷ s.calls) p.native)
                (record s { calls = wl_display_get_client_list p.native ∷ s.calls })
                (get_client_list env listed display n at s))
  unfolding get_client_list
  client_list_lem listed display n at p s lt here known = elim (Bool-cases (p.native == 0)) [
    | inl null ↦ inl (ground (arith, null), rw (get_ok display p s here, null) refl)
    | inr full ↦
        let asked : State = record s { calls = wl_display_get_client_list p.native ∷ s.calls } in
        let ps : List ℕ = listed asked.calls p.native in
        let rest = pushes_lem n at ps asked lt (asked_known ps s asked.calls known) in
        inr (
          ground (arith, full),
          record {
            items = rest.items;
            after = rest.after;
            done = rw (get_ok display p s here, full) rest.done;
            handles = rest.handles;
            kept = rest.kept;
          },
        )
  ]
