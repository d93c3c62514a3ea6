-- ===== src/Util/Argument/Arrays.antt =====
-- What becomes of the array of an argument when the argument is copied, moved and destroyed.
use waylandpp.Prelude.{
  ℕ, suc, ◌<◌, ◌≡◌, refl, Bool, true, false, none, some, List, [], ◌∷◌, arith, ◌==◌, ==_self,
}
use waylandpp.Prelude.Assoc.{find_key, set_key, erase_key}
use waylandpp.Runtime.{ok, fault, and_then}
use waylandpp.Util.Argument.{
  Argument, State, update, get, load, free, unset, copy_assign, copy_construct, move_construct,
  destroy,
}

get_ok : (l : ℕ) (p : Argument) (s : State) → find_key l s.objs ≡ some p → get l s ≡ ok p s
unfolding get
get_ok l p s e = rw (e, get)

load_ok : (d : ℕ) (v : List ℕ) (s : State) → s.heap d ≡ some v → load d s ≡ ok v s
unfolding load
load_ok d v s e = rw (e, load)

load_gone : (d : ℕ) (s : State) → s.heap d ≡ none → load d s ≡ fault
unfolding load
load_gone d s e = rw (e, load)

abbrev array_at : ℕ → Argument
array_at d = record { word = d; is_array = true }

destroy_array :
    (s : State) (l d : ℕ) (v : List ℕ)
    → find_key l s.objs ≡ some (array_at d)
    → s.heap d ≡ some v
    → destroy l s ≡ ok tt (record s { objs = erase_key l s.objs; heap = update s.heap d none })
unfolding destroy free
destroy_array s l d v here full = rw (get_ok l (array_at d) s here, load_ok d v s full) refl

module _ (s : State) (l m d : ℕ) (v : List ℕ) (here : find_key m s.objs ≡ some (array_at d))
    (full : s.heap d ≡ some v) (ne : (l == m) ≡ false) where
  -- The array of an argument that was moved is released by the destructors of both objects: the second
  -- one uses deleted memory.
  pub moved_argument-faults :
      and_then (move_construct l m s) (λ u. λ t. and_then (destroy l t) (λ _. destroy m)) ≡ fault
  unfolding move_construct find_key erase_key destroy free
  moved_argument-faults =
      let two : State = record s { objs = (l, array_at d) ∷ s.objs } in
      let one : State = record s { heap = update s.heap d none } in
      rw
        (
          get_ok m (array_at d) s here,
          get_ok l (array_at d) two (rw (==_self l) refl),
          load_ok d v two full,
          ==_self l,
          get_ok m (array_at d) one here,
          load_gone d one (rw (==_self d) refl),
        )
        refl

  abbrev copied : State
  copied = record {
    objs = (l, array_at s.next) ∷ s.objs;
    heap = update (update s.heap s.next (some [])) s.next (some v);
    next = suc s.next;
  }

  copy_ok :
      (fails : List ℕ → Bool)
      → fails v ≡ false
      → d < s.next
      → copy_construct fails l m s ≡ ok tt copied
  unfolding copy_construct copy_assign free find_key set_key
  copy_ok fails works old =
      let bare : State = record s { objs = (l, unset) ∷ s.objs } in
      let begun : State = record copied { heap = update s.heap s.next (some []) } in
      let apart : (s.next == d) ≡ false = ground (arith, old) in
      rw
        (
          ne,
          get_ok l unset bare (rw (==_self l) refl),
          get_ok m (array_at d) bare (rw ne here),
          ==_self l,
          load_ok d v begun (rw apart full),
          works,
        )
        refl

  -- A copy of an argument with an array, if libwayland can copy it, has an array of its own with the same
  -- content, which is there when the argument that was copied is destroyed.
  pub copied_argument_stays :
      (fails : List ℕ → Bool)
      → fails v ≡ false
      → d < s.next
      → (t : State) × ((and_then (copy_construct fails l m s) (λ _. destroy m) ≡ ok tt t)
          × ((find_key l t.objs ≡ some (array_at s.next))
              × ((t.heap s.next ≡ some v) × (t.heap d ≡ none))))
  unfolding find_key erase_key
  copied_argument_stays fails works old =
      let apart : (s.next == d) ≡ false = ground (arith, old) in
      let other : (d == s.next) ≡ false = ground (arith, old) in
      (
        record copied {
          objs = (l, array_at s.next) ∷ erase_key m s.objs;
          heap = update copied.heap d none;
        },
        (
          rw (copy_ok fails works old, destroy_array copied m d v (rw ne here) (rw apart full), ne)
              refl,
          (rw (==_self l) refl, (rw (other, ==_self s.next) refl, rw (==_self d) refl)),
        ),
      )
