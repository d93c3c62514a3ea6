-- ===== src/Util/Any/Steps.antt =====
-- The methods of `any`, one by one: each returns, with the values that are intended.
use waylandpp.Prelude.{
  ℕ, ◌≡◌, ◌≢◌, refl, sym, ap, ◌∙◌, false, Option, some, arith, ◌==◌, Bool-cases, inl, inr,
}
use waylandpp.Prelude.Assoc.{eq_of, Assoc, find_key, set_key, tally-set, find-set_ne}
use waylandpp.Runtime.{ok}
use waylandpp.Util.Any.{
  State, clone, copy_construct, move_assign, copy_assign, assign, replace, destroy,
}
use waylandpp.Util.Any.Owners.{
  Owned, get_ok, load_ok, there, apart, delete_lem, address, grown, without,
}
use waylandpp.Util.Any.Changes.{
  exchanged, exchanged-Owned, values-exchanged, ended, ended-Owned, values-ended, overwritten,
  overwritten-Owned, values-overwritten, placed, placed-Owned, values-placed,
}
use waylandpp.Util.Any.Values.{held, values, self, find-values, set_same, values_put}
use waylandpp.Util.Any.Actions.{
  copies, assigns, move_assigns, sets, destroys, worth, intended, Performs,
}

module _ {V : Type 0} where
  worth-values :
      (m q : ℕ) (s : State V)
      → find_key m s.objs ≡ some q
      → worth m (values s.heap s.objs) ≡ held s.heap q
  unfolding worth
  worth-values m q s here = rw (find-values s.heap m q s.objs here, worth)

  held_at : (q : ℕ) → q ≢ 0 → (s : State V) → s.heap q ≡ held s.heap q
  held_at q nz s = ground (arith, nz)

  clone_lem :
      (q : ℕ) (s : State V)
      → (q ≢ 0 → (v : V) × (s.heap q ≡ some v))
      → clone q s ≡ ok (address (held s.heap q) s) (grown (held s.heap q) s)
  unfolding clone
  clone_lem q s full = elim (Bool-cases (q == 0)) [
    | inl null ↦ rw null refl
    | inr nz ↦ let (v, e) = full (ground (arith, nz)) in rw (nz, e, load_ok q v s e) refl
  ]

  module _ (type_of : V → ℕ) (s : State V) (i : Owned s) where
    pub Performs-copy :
        (l m q : ℕ) → find_key m s.objs ≡ some q → Performs s (copies l m) (copy_construct l m s)
    unfolding copy_construct intended
    Performs-copy l m q here = record {
      after = placed l (held s.heap q) s;
      done = rw (get_ok m q s here, clone_lem q s (there s i m q here)) refl;
      kept = placed-Owned s i l (held s.heap q);
      holds = rw (worth-values m q s here, values-placed s i l (held s.heap q)) refl;
    }

    pub Performs-destroy :
        (l p : ℕ) → find_key l s.objs ≡ some p → Performs s (destroys l) (destroy l s)
    unfolding destroy intended
    Performs-destroy l p here = record {
      after = ended s i l p here;
      done = rw (get_ok l p s here, delete_lem s i l p here) refl;
      kept = ended-Owned s i l p here;
      holds = values-ended s i l p here;
    }

    replace_ok :
        (l p : ℕ) (v : V) (here : find_key l s.objs ≡ some p)
        → replace type_of l p v s ≡ ok tt (exchanged s i l p here (some v))
    unfolding replace
    replace_ok l p v here = rw (delete_lem s i l p here) refl

    pub Performs-replace :
        (l p : ℕ) (v : V) (here : find_key l s.objs ≡ some p)
        → assign type_of l v s ≡ replace type_of l p v s
        → Performs s (sets l v) (assign type_of l v s)
    unfolding intended
    Performs-replace l p v here same = record {
      after = exchanged s i l p here (some v);
      done = same ∙ replace_ok l p v here;
      kept = exchanged-Owned s i l p here (some v);
      holds = values-exchanged s i l p here (some v);
    }

    pub Performs-set :
        (l p : ℕ) (v : V)
        → find_key l s.objs ≡ some p
        → Performs s (sets l v) (assign type_of l v s)
    unfolding assign intended
    Performs-set l p v here = elim (Bool-cases (p == 0)) [
      | inl null ↦ Performs-replace l p v here (rw (get_ok l p s here, null) refl)
      | inr full ↦
          let nz : p ≢ 0 = ground (arith, full) in
          let (old, e) = there s i l p here nz in
          elim (Bool-cases (type_of v == type_of old)) [
            | inl same ↦ record {
              after = overwritten s i l p here v;
              done = rw (get_ok l p s here, full, load_ok p old s e, same) refl;
              kept = overwritten-Owned s i l p here v nz;
              holds = values-overwritten s i l p here v nz;
            }
            | inr other ↦
                Performs-replace l p v here
                  (rw (get_ok l p s here, full, load_ok p old s e, other, load_ok p old s e) refl)
          ]
    ]

    -- The value of another object is there after a value was deleted.
    held-without :
        (l p m q : ℕ)
        → find_key l s.objs ≡ some p
        → find_key m s.objs ≡ some q
        → (l == m) ≡ false
        → held (without p s).heap q ≡ held s.heap q
    held-without l p m q here other ne = elim (Bool-cases (p == 0)) [
      | inl null ↦ rw null refl
      | inr full ↦ rw full (ground (arith, apart s i l p here m q other ne))
    ]

    still_there :
        (l p m q : ℕ)
        → find_key l s.objs ≡ some p
        → find_key m s.objs ≡ some q
        → (l == m) ≡ false
        → q ≢ 0
        → (v : V) × ((without p s).heap q ≡ some v)
    still_there l p m q here other ne nz =
        let (v, e) = there s i m q other nz in
        (
          v,
          held_at q nz (without p s)
              ∙ held-without l p m q here other ne
              ∙ sym (held_at q nz s)
              ∙ e,
        )

    pub Performs-assign :
        (l p m q : ℕ)
        → find_key l s.objs ≡ some p
        → find_key m s.objs ≡ some q
        → Performs s (assigns l m) (copy_assign l m s)
    unfolding copy_assign intended
    Performs-assign l p m q here other = elim (Bool-cases (l == m)) [
      | inl same ↦ record {
        after = s;
        done = rw same refl;
        kept = i;
        holds = sym (
            set_same l (worth m (values s.heap s.objs)) (values s.heap s.objs) (
              find-values s.heap l q s.objs (rw (eq_of l m same) other)
              ∙ ap some (sym (worth-values m q s other))));
      }
      | inr ne ↦
          let o : Option V = held s.heap q in
          record {
            after = exchanged s i l p here o;
            done =
                rw
                  (
                    ne,
                    get_ok l p s here,
                    delete_lem s i l p here,
                    get_ok m q (without p s) other,
                    clone_lem q (without p s) (still_there l p m q here other ne),
                    held-without l p m q here other ne,
                  )
                  refl;
            kept = exchanged-Owned s i l p here o;
            holds =
                values-exchanged s i l p here o
                ∙ ap (λ x. set_key l x (values s.heap s.objs)) (sym (worth-values m q s other));
          }
    ]

    pub Performs-swap :
        (l p m q : ℕ)
        → find_key l s.objs ≡ some p
        → find_key m s.objs ≡ some q
        → (l == m) ≡ false
        → Performs s (move_assigns l m) (move_assign l m s)
    unfolding move_assign intended
    Performs-swap l p m q here other ne =
        let there_still = find-set_ne l m q s.objs ne ∙ other in
        let a : Assoc (Option V) = values s.heap s.objs in
        record {
          after = record s { objs = set_key m p (set_key l q s.objs) };
          done = rw (get_ok l p s here, get_ok m q s other) refl;
          kept = record {
            alone = λ d nz. omega (
              arith,
              tally-set m self d p q (set_key l q s.objs) there_still,
              tally-set l self d q p s.objs here,
              i.alone d nz,
            );
            fresh = i.fresh;
            next_pos = i.next_pos;
          };
          holds =
              values_put s.heap m p (set_key l q s.objs)
              ∙ ap (set_key m (held s.heap p)) (values_put s.heap l q s.objs)
              ∙ rw (worth-values l p s here, worth-values m q s other) refl;
        }
