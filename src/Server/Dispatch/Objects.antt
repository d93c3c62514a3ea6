-- ===== src/Server/Dispatch/Objects.antt =====
-- The objects that `resource_t::c_dispatcher` makes for resource arguments and new resources, and the
-- references that they leave counted.
use waylandpp.Prelude.{
  ap, ◌∙◌, ◌≤◌, ◌<◌, none, length, ℕ, ◌+◌, ◌≡◌, ◌≢◌, refl, true, some, List, [], ◌∷◌, ◌==◌,
  Bool-cases, inl, inr, arith, ==_self, ne_false,
}
use waylandpp.Prelude.Int.{ℤ}
use waylandpp.Prelude.Assoc.{find_key, hit}
use waylandpp.Runtime.{u32_mod, ok, Outcome, Env}
use waylandpp.Server.Store.{
  ClientData, of_client, retain_some, Handle, ServerCall, wl_resource_get_user_data,
  wl_resource_create, State, null_handle, get_ok, bare, of_resource,
}
use waylandpp.Server.Store.Inv.{
  count, refs, live, Inv, no_refs, placed-Inv, called-Inv, allocated-Inv, Inv-owed,
}
use waylandpp.Server.Callbacks.Created.{listened_state, listener_lem}
use waylandpp.Server.Store.Wrap.{IsKnown, init-Makes}
use waylandpp.Server.Resource
use waylandpp.Server.Store.Counted.{Takes}
use waylandpp.Server.Store.Release.{retain_some-Takes}
use waylandpp.Server.Resource.Handles.{construct_lem}
use waylandpp.Server.Dispatch.{
  pass_on, RequestValue, resource, value_type, decode_object, decode_new,
}
use waylandpp.Client.Dispatch.{WlArgument}
use waylandpp.Scanner.Text.{Text, t}
use waylandpp.Server.Dispatch.Counts.{
  times, resources, has_room, HasRoom, with_lost, same-Inv, is, hit_self,
}

-- The client in `cl` has a native object and data, which alone listens for the client's new resources;
-- the library makes a resource, which has no user data yet.
pub record MakesResource (env : Env ServerCall) (listening : List ServerCall → ℕ → List ℕ)
    (cl interface version id : ℕ) (s : State) : Type 0 where
  pub client : Handle
  pub here : find_key cl s.objs ≡ some client
  pub has_native : client.native ≢ 0
  pub counter : ℕ
  pub fields : ClientData
  pub there :
      s.heap client.data_ptr ≡ some (record { counter = counter; members = of_client fields })
  pub listens :
      listening (wl_resource_create client.native interface version id ∷ s.calls) client.native
      ≡ client.data_ptr ∷ []
  pub makes : env.pointer s.calls (wl_resource_create client.native interface version id) ≢ 0
  pub unknown :
      env.pointer (wl_resource_create client.native interface version id ∷ s.calls) (
        wl_resource_get_user_data
          (env.pointer s.calls (wl_resource_create client.native interface version id)))
      ≡ 0

module _ {Double : Type 0} (fixed_to_double : ℤ → Double) (env : Env ServerCall)
    (types version_of : ℕ → ℕ) (listening : List ServerCall → ℕ → List ℕ) where
  -- For a resource argument: the data that the library knows, if any, is there. For a new resource: it
  -- can be made. For both: the data has room for the two copies.
  abbrev pub IsReady : (ch cl l c : ℕ) → WlArgument → State → Type 0
  IsReady ch cl l c arg s =
      ((ch == b'o') ≡ true
        → arg.o ≢ 0
        → IsKnown env wl_resource_get_user_data arg.o s
          × HasRoom l (Resource.construct env l arg.o s))
      × ((ch == b'n') ≡ true
          → arg.n ≢ 0
          → MakesResource env listening cl (types c) (version_of (types c)) arg.n s
            × HasRoom l (
                Resource.construct_new env listening l cl (types c) (version_of (types c)) arg.n s))

  -- A value of the type comes out, and the counters are right but for the references of the copies and
  -- of the listener.
  pub record Decodes (lost : ℕ → ℕ) (o : Outcome State (RequestValue Double)) (type : Text)
      : Type 0 where
    pub value : RequestValue Double
    pub after : State
    pub copied : List ℕ
    pub made : List ℕ
    pub done : o ≡ ok value after
    pub typed : value_type value ≡ type
    pub sized : length copied ≡ resources (value ∷ [])
    pub few : length made ≤ length copied
    pub kept : Inv (with_lost lost copied made) no_refs after

  pub plainly :
      (lost : ℕ → ℕ) (s : State) (v : RequestValue Double)
      → Inv lost no_refs s
      → resources (v ∷ []) ≡ 0
      → Decodes lost (ok v s) (value_type v)
  unfolding times
  plainly lost s v i plain = record {
    value = v;
    after = s;
    copied = [];
    made = [];
    done = refl;
    typed = refl;
    sized = omega (arith, plain);
    few = omega arith;
    kept = same-Inv lost _ s i (λ d. omega arith);
  }

  emptied :
      (lost : ℕ → ℕ) (s : State) (l : ℕ)
      → Inv lost no_refs s
      → Inv lost no_refs (record s { objs = (l, null_handle) ∷ s.objs })
  emptied lost s l i =
      Inv-owed lost _ _ (placed-Inv lost no_refs s i l null_handle) no_refs
        (λ d nz. ground (arith, nz))

  -- A reference that is counted for no handle is lost.
  retain_lem :
      (lost : ℕ → ℕ) (s : State) (d : ℕ)
      → Inv lost no_refs s
      → (d ≢ 0 → 0 < count (s.heap d))
      → count (s.heap d) + 1 < u32_mod
      → Takes (λ e. lost e + hit d e) no_refs s (retain_some d s)
  retain_lem lost s d i above room =
      retain_some-Takes (λ e. lost e + hit d e) no_refs s d
        (record {
          owned = λ e nz. omega (arith, i.owned e nz);
          fresh = i.fresh;
          small = i.small;
          null_free = i.null_free;
          next_pos = i.next_pos;
        })
        above room

  pass_on_lem :
      (lost : ℕ → ℕ) (made : List ℕ) (l : ℕ) (p : Handle) (s : State)
      → Inv (λ d. lost d + times made d) no_refs s
      → length made ≤ 1
      → find_key l s.objs ≡ some p
      → has_room l s ≡ true
      → Decodes lost (pass_on fixed_to_double env types version_of listening l s) (t "resource_t")
  unfolding pass_on has_room value_type resources times
  pass_on_lem lost made l p s i few here room =
      let d : ℕ = p.data_ptr in
      let fits : count (s.heap d) + 2 < u32_mod = ground (arith, rw (here, has_room) at room) in
      let lost1 : ℕ → ℕ = λ e. lost e + times made e in
      let one =
        retain_lem lost1 s d i (λ nz. live lost1 no_refs s i l p here nz refl)
          (omega (arith, fits)) in
      let here1 : find_key l one.after.objs ≡ some p = ap (find_key l) one.same_objs ∙ here in
      let fits1 : count (one.after.heap d) + 1 < u32_mod = elim (Bool-cases (d == 0)) [
        | inl z ↦ rw (is d 0 z, one.kept.null_free) (omega arith)
        | inr full ↦
            let nz : d ≢ 0 = ground (arith, full) in
            omega (
              arith,
              fits,
              i.owned d nz,
              one.kept.owned d nz,
              ap (refs d) one.same_objs,
              hit_self d,
            )
      ] in
      let lost2 : ℕ → ℕ = λ e. lost1 e + hit d e in
      let two =
        retain_lem lost2 one.after d one.kept
          (λ nz. live lost2 no_refs one.after one.kept l p here1 nz refl) fits1 in
      record {
        value = resource l;
        after = two.after;
        copied = d ∷ [];
        made = made;
        done = rw (get_ok l p s here, one.done, two.done) refl;
        typed = refl;
        sized = refl;
        few = omega (arith, few);
        kept = same-Inv _ _ two.after two.kept (λ e. omega arith);
      }

  null_room :
      (l : ℕ) (s : State)
      → s.heap 0 ≡ none
      → has_room l (record s { objs = (l, null_handle) ∷ s.objs }) ≡ true
  unfolding has_room find_key
  null_room l s free = rw (==_self l, has_room, free) refl

  pub object_lem :
      (lost : ℕ → ℕ) (l o : ℕ) (s : State)
      → Inv lost no_refs s
      → (o ≢ 0
          → IsKnown env wl_resource_get_user_data o s × HasRoom l (Resource.construct env l o s))
      → Decodes lost
          (decode_object fixed_to_double env types version_of listening l o s)
          (t "resource_t")
  unfolding decode_object has_room find_key times
  object_lem lost l o s i known = elim (Bool-cases (o == 0)) [
    | inl null ↦
        let s0 : State = record s { objs = (l, null_handle) ∷ s.objs } in
        let j = emptied lost s l i in
        rw null (
          pass_on_lem lost [] l null_handle s0 (same-Inv lost _ s0 j (λ d. omega arith))
            (omega arith) (rw (==_self l) refl) (null_room l s i.null_free))
    | inr full ↦
        let nz : o ≢ 0 = ground (arith, full) in
        let (sound, room) = known nz in
        let m = construct_lem env lost s l o i (nz, sound) in
        rw (full, m.done)
          (pass_on_lem lost [] l m.made m.after (same-Inv lost _ m.after m.kept (λ d. omega arith))
            (omega arith) m.there (rw m.done at room))
  ]

  pub new_lem :
      (lost : ℕ → ℕ) (cl l c id : ℕ) (s : State)
      → Inv lost no_refs s
      → (id ≢ 0
          → MakesResource env listening cl (types c) (version_of (types c)) id s
            × HasRoom l
                (Resource.construct_new env listening l cl (types c) (version_of (types c)) id s))
      → Decodes lost
          (decode_new fixed_to_double env types version_of listening cl l c id s)
          (t "resource_t")
  unfolding decode_new Resource.construct_new Resource.init find_key has_room times
  new_lem lost cl l c id s i ready = elim (Bool-cases (id == 0)) [
    | inl null ↦
        let s0 : State = record s { objs = (l, null_handle) ∷ s.objs } in
        let j = emptied lost s l i in
        rw null (
          pass_on_lem lost [] l null_handle s0 (same-Inv lost _ s0 j (λ d. omega arith))
            (omega arith) (rw (==_self l) refl) (null_room l s i.null_free))
    | inr full ↦
        let (h, room) = ready (ground (arith, full)) in
        let create : ServerCall =
          wl_resource_create h.client.native (types c) (version_of (types c)) id in
        let r : ℕ = env.pointer s.calls create in
        let asked : State = record s { calls = create ∷ s.calls } in
        let old : h.client.data_ptr < s.next = ground (arith, i.fresh h.client.data_ptr, h.there) in
        let f : ℕ = h.fields.resource_created in
        let heard : State = listened_state l r f asked in
        let lost1 : ℕ → ℕ = λ d. lost d + hit s.next d in
        let heard-Inv : Inv lost1 no_refs heard =
          called-Inv lost1 no_refs _
            (allocated-Inv lost no_refs asked (called-Inv lost no_refs s i (create ∷ s.calls))
              (of_resource Resource.new_data))
            heard.calls in
        let placed : State = record heard { objs = (l, bare r) ∷ heard.objs } in
        let placed_inv : Inv lost1 no_refs placed =
          Inv-owed lost1 _ placed (placed-Inv lost1 no_refs heard heard-Inv l (bare r)) no_refs
            (λ d dz. ground (arith, dz)) in
        let m =
          init-Makes lost1 placed placed_inv l (bare r) (rw (==_self l) refl) refl
            (λ p. of_resource Resource.new_data) Resource.listeners in
        let listens =
          listener_lem env asked l h.client.data_ptr r h.counter h.fields h.makes h.unknown h.there
            old in
        let steps =
          rw
            (
              get_ok cl h.client s h.here,
              ne_false h.client.native h.has_native,
              h.listens,
              listens,
              m.done,
            )
            at room in
        rw
          (
            full,
            get_ok cl h.client s h.here,
            ne_false h.client.native h.has_native,
            h.listens,
            listens,
            m.done,
          )
          (pass_on_lem lost (s.next ∷ []) l m.made m.after
            (same-Inv lost1 _ m.after m.kept (λ d. omega arith)) (omega arith) m.there steps)
  ]
