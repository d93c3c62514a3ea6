-- ===== src/Util/Shared/Operations.antt =====
-- The operations return, keep the counts right, and lose no native object.
use waylandpp.Prelude.{
  ℕ, suc, ◌<◌, ◌≡◌, ◌≢◌, refl, sym, ◌∙◌, false, some, ◌∷◌, arith, ◌==◌, Bool-cases, inl, inr,
}
use waylandpp.Prelude.Assoc.{
  eq_of, find_key, set_key, erase_key, tally, find-set_self, tally-set, tally-erase, tally_pos,
  find-set_ne,
}
use waylandpp.Runtime.{ok}
use waylandpp.Util.Shared.{
  Destroyer, Wrapper, empty, State, construct, construct_from, assign, copy_assign, move_assign,
  cursor_move_assign, destroy,
}
use waylandpp.Util.Shared.Blocks.{KeepObjects, Below, fresh, uses_at}
use waylandpp.Util.Shared.Counts.{Owned, get_ok, share_lem, unshare_lem}
use waylandpp.Util.Shared.Actions.{wraps, wrapped_by, none_wrapped, Keeps}

module _ {C : Type 0} (s : State C) (i : Owned s) where
  pub live :
      (l : ℕ) (p : Wrapper)
      → find_key l s.objs ≡ some p
      → p.block ≢ 0
      → 0 < uses_at p.block s.blocks
  live l p here nz =
      let (n, h) = tally_pos l (λ q. q.block) p s.objs here in
      omega (arith, h, i.counted p.block nz)

  -- The members of `q` go to `l`.
  pub assign_lem :
      (l : ℕ) (p q : Wrapper)
      → find_key l s.objs ≡ some p
      → (q.block ≢ 0 → 0 < uses_at q.block s.blocks)
      → Keeps none_wrapped s (assign l q s)
  unfolding assign
  assign_lem l p q here pos =
      let a = share_lem q.block s pos in
      let placed : State C = record s { objs = set_key l q s.objs; blocks = a.blocks } in
      let b =
        unshare_lem p.block placed (λ nz. omega (arith, a.uses p.block nz, live l p here nz)) in
      record {
        after = record placed { blocks = b.blocks; calls = b.calls };
        done = rw (get_ok l p s here, a.done) b.done;
        kept = record {
          counted = λ d nz. omega (
            arith,
            tally-set l (λ r. r.block) d q p s.objs here,
            i.counted d nz,
            a.uses d nz,
            b.uses d nz,
          );
          below = b.below (a.below i.below);
          next_pos = i.next_pos;
        };
        balance = λ x nz. omega (arith, a.same x nz, b.balance x nz);
      }

  pub construct_lem :
      (l p : ℕ) (k : Destroyer) → Keeps (wrapped_by (wraps l p k)) s (construct l p k s)
  unfolding construct tally find_key Below
  construct_lem l p k = record {
    after = record {
      objs = (l, record { pointer = 0; block = s.next }) ∷ s.objs;
      blocks = (s.next, record { object = p; destroyer = k; uses = 1 }) ∷ s.blocks;
      next = suc s.next;
      calls = s.calls;
    };
    done = refl;
    kept = record {
      counted = λ d nz. ground (arith, i.counted d nz, fresh s.next s.blocks i.below d);
      below = (omega arith, (i.next_pos, i.below));
      next_pos = omega arith;
    };
    balance = λ x nz. ground (arith, nz);
  }

  pub construct_from_lem :
      (l p m : ℕ) (q : Wrapper)
      → find_key m s.objs ≡ some q
      → (k : Keeps none_wrapped s (construct_from l p m s)) × ((k.after.objs
            ≡ (l, record { pointer = p; block = q.block }) ∷ s.objs)
          × KeepObjects s.blocks k.after.blocks)
  unfolding construct_from tally
  construct_from_lem l p m q there =
      let a = share_lem q.block s (live m q there) in
      (
        record {
          after = record s {
            objs = (l, record { pointer = p; block = q.block }) ∷ s.objs;
            blocks = a.blocks;
          };
          done = rw (get_ok m q s there, a.done) refl;
          kept = record {
            counted = λ d nz. omega (arith, i.counted d nz, a.uses d nz);
            below = a.below i.below;
            next_pos = i.next_pos;
          };
          balance = λ x nz. omega (arith, a.same x nz);
        },
        (refl, a.objects),
      )

  placed_there :
      (l m : ℕ) (p q : Wrapper)
      → find_key l s.objs ≡ some p
      → find_key m s.objs ≡ some q
      → find_key m (set_key l q s.objs) ≡ some q
  placed_there l m p q here there = elim (Bool-cases (l == m)) [
    | inl same ↦ rw (sym (eq_of l m same)) (find-set_self l q p s.objs here)
    | inr ne ↦ find-set_ne l m q s.objs ne ∙ there
  ]

  pub move_assign_lem :
      (l m : ℕ) (p q : Wrapper)
      → find_key l s.objs ≡ some p
      → find_key m s.objs ≡ some q
      → Keeps none_wrapped s (move_assign l m s)
  unfolding move_assign
  move_assign_lem l m p q here there = record {
    after = record s { objs = set_key m p (set_key l q s.objs) };
    done = rw (get_ok l p s here, get_ok m q s there) refl;
    kept = record {
      counted = λ d nz. omega (
        arith,
        tally-set l (λ r. r.block) d q p s.objs here,
        tally-set m (λ r. r.block) d p q (set_key l q s.objs) (placed_there l m p q here there),
        i.counted d nz,
      );
      below = i.below;
      next_pos = i.next_pos;
    };
    balance = λ x nz. omega arith;
  }

  pub cursor_move_lem :
      (l m : ℕ) (p q : Wrapper)
      → find_key l s.objs ≡ some p
      → find_key m s.objs ≡ some q
      → (l == m) ≡ false
      → Keeps none_wrapped s (cursor_move_assign l m s)
  unfolding cursor_move_assign
  cursor_move_lem l m p q here there ne =
      let r : Wrapper = record { pointer = p.pointer; block = 0 } in
      let moved : State C = record s { objs = set_key m r (set_key l q s.objs) } in
      let b = unshare_lem p.block moved (live l p here) in
      record {
        after = record moved { blocks = b.blocks; calls = b.calls };
        done = rw (ne, get_ok l p s here, get_ok m q s there) b.done;
        kept = record {
          counted = λ d nz. ground (
            arith,
            tally-set l (λ r. r.block) d q p s.objs here,
            tally-set m (λ r. r.block) d r q (set_key l q s.objs)
                (find-set_ne l m q s.objs ne ∙ there),
            i.counted d nz,
            b.uses d nz,
            nz,
          );
          below = b.below i.below;
          next_pos = i.next_pos;
        };
        balance = λ x nz. omega (arith, b.balance x nz);
      }

  pub destroy_lem :
      (l : ℕ) (p : Wrapper)
      → find_key l s.objs ≡ some p
      → (k : Keeps none_wrapped s (destroy l s)) × ((k.after.objs ≡ erase_key l s.objs)
          × KeepObjects s.blocks k.after.blocks)
  unfolding destroy
  destroy_lem l p here =
      let b = unshare_lem p.block s (live l p here) in
      (
        record {
          after = record s { objs = erase_key l s.objs; blocks = b.blocks; calls = b.calls };
          done = rw (get_ok l p s here, b.done) refl;
          kept = record {
            counted = λ d nz.
                omega (
                  arith,
                  tally-erase l (λ r. r.block) d p s.objs here,
                  i.counted d nz,
                  b.uses d nz,
                );
            below = b.below i.below;
            next_pos = i.next_pos;
          };
          balance = λ x nz. omega (arith, b.balance x nz);
        },
        (refl, b.objects),
      )

  pub unchanged : Keeps none_wrapped s (ok tt s)
  unchanged = record { after = s; done = refl; kept = i; balance = λ x nz. omega arith }

  pub copy_assign_lem :
      (l m : ℕ) (p q : Wrapper)
      → find_key l s.objs ≡ some p
      → find_key m s.objs ≡ some q
      → Keeps none_wrapped s (copy_assign l m s)
  unfolding copy_assign
  copy_assign_lem l m p q here there = elim (Bool-cases (l == m)) [
    | inl same ↦ rw same unchanged
    | inr ne ↦ rw (ne, get_ok m q s there) (assign_lem l p q here (live m q there))
  ]

  -- An empty wrapper shares nothing.
  pub emplaced : (l : ℕ) → Owned (record s { objs = (l, empty) ∷ s.objs })
  unfolding tally
  emplaced l = record {
    counted = λ d nz. ground (arith, i.counted d nz, nz);
    below = i.below;
    next_pos = i.next_pos;
  }
