-- ===== src/Util/Any/Owners.antt =====
-- Each object of `any` owns its value alone: what holds between the calls, and that what the methods do
-- to the heap keeps it.
use waylandpp.Prelude.{
  ℕ, suc, ◌+◌, ◌≤◌, ◌<◌, ◌≡◌, ◌≢◌, refl, ◌∙◌, false, Option, none, some, arith, ◌==◌, if◌then◌else◌,
  Bool-cases, inl, inr,
}
use waylandpp.Prelude.Assoc.{
  hit, find_key, set_key, erase_key, tally_pos, tally-set, tally-erase, find-erase_ne,
}
use waylandpp.Runtime.{ok}
use waylandpp.Util.Any.{State, update, get, load, delete}
use waylandpp.Util.Any.Values.{self, owners}

module _ {V : Type 0} where
  abbrev pub live : Option V → ℕ
  live none = 0
  live (some v) = 1

  -- Every value on the heap has one owner, and no object dangles.
  pub record Owned (s : State V) : Type 0 where
    pub alone : (d : ℕ) → d ≢ 0 → owners d s.objs ≡ live (s.heap d)
    pub fresh : (d : ℕ) → s.next ≤ d → s.heap d ≡ none
    pub next_pos : 0 < s.next

  pub some_of_live : (o : Option V) → 0 < live o → (v : V) × (o ≡ some v)
  some_of_live none pos = absurd (omega arith)
  some_of_live (some v) pos = (v, refl)

  pub live_le : (o : Option V) → live o ≤ 1
  live_le none = omega arith
  live_le (some v) = omega arith

  -- Where a copy of what an object holds goes, and what the heap is then
  abbrev pub address : Option V → State V → ℕ
  address none s = 0
  address (some v) s = s.next

  abbrev pub grown : Option V → State V → State V
  grown none s = s
  grown (some v) s = record s { heap = update s.heap s.next (some v); next = suc s.next }

  abbrev pub without : ℕ → State V → State V
  without p s = record s { heap = if p == 0 then s.heap else update s.heap p none }

  pub get_ok : (l p : ℕ) (s : State V) → find_key l s.objs ≡ some p → get l s ≡ ok p s
  unfolding get
  get_ok l p s e = rw (e, get)

  pub load_ok : (d : ℕ) (v : V) (s : State V) → s.heap d ≡ some v → load d s ≡ ok v s
  unfolding load
  load_ok d v s e = rw (e, load)

  module _ (s : State V) (i : Owned s) (l p : ℕ) (here : find_key l s.objs ≡ some p) where
    pub there : p ≢ 0 → (v : V) × (s.heap p ≡ some v)
    there nz =
        let (n, one) = tally_pos l self p s.objs here in
        some_of_live (s.heap p) (omega (arith, one, i.alone p nz))

    -- Two objects have no value in common.
    pub apart : (m q : ℕ) → find_key m s.objs ≡ some q → (l == m) ≡ false → q ≢ 0 → (p == q) ≡ false
    apart m q other ne nz =
        let (n, one) =
          tally_pos m self q (erase_key l s.objs) (find-erase_ne l m s.objs ne ∙ other) in
        ground (arith, one, tally-erase l self q p s.objs here, i.alone q nz, live_le (s.heap q))

    pub old : p < s.next
    old = elim (Bool-cases (p == 0)) [
      | inl null ↦ ground (arith, null, i.next_pos)
      | inr full ↦ let (v, e) = there (ground (arith, full)) in ground (arith, e, i.fresh p)
    ]

    pub delete_lem : delete p s ≡ ok tt (without p s)
    unfolding delete
    delete_lem = elim (Bool-cases (p == 0)) [
      | inl null ↦ rw null refl
      | inr full ↦ let (v, e) = there (ground (arith, full)) in rw (full, load_ok p v s e) refl
    ]

    -- The object gets another address `r`, in a heap that has lost what was at `p` and has something new
    -- at `r`.
    pub set-Owned :
        (r n : ℕ) (g : ℕ → Option V)
        → ((d : ℕ) → d ≢ 0 → live (g d) + hit p d ≡ live (s.heap d) + hit r d)
        → ((d : ℕ) → n ≤ d → g d ≡ none)
        → 0 < n
        → Owned (record { objs = set_key l r s.objs; heap = g; next = n })
    set-Owned r n g moved fresh pos = record {
      alone = λ d nz. omega (arith, tally-set l self d r p s.objs here, i.alone d nz, moved d nz);
      fresh = fresh;
      next_pos = pos;
    }

    -- The values of the other objects are at their old addresses.
    pub others : (d : ℕ) → hit p d < owners d s.objs → d ≢ 0 → (p ≢ d) × (d < s.next)
    others d more nz = (
      ground (arith, more, i.alone d nz, live_le (s.heap d)),
      ground (arith, more, i.alone d nz, i.fresh d),
    )
