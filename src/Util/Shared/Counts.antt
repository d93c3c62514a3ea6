-- ===== src/Util/Shared/Counts.antt =====
-- What sharing and the end of a share do to the counts, and what holds between the calls.
use waylandpp.Prelude.{
  ℕ, ◌+◌, ◌-◌, ◌<◌, ◌≡◌, ◌≢◌, refl, sym, ap, false, some, List, [], ◌∷◌, arith, ◌==◌, Bool-cases,
  inl, inr, ne_false,
}
use waylandpp.Prelude.Assoc.{Assoc, hit, find_key, set_key, tally_pos}
use waylandpp.Runtime.{Outcome, ok, thrown, fault, out_of_fuel}
use waylandpp.Util.Shared.{
  Block, Wrapper, Call, destroys_native, other, State, get, load, share, unshare, native_of,
}
use waylandpp.Util.Shared.Blocks.{
  uses_at, sharers, native_in, alive, some_of_count, Below, Below-set, KeepObjects, KeepObjects-set,
  uses-set, alive-set,
}

module _ {C : Type 0} where
  -- How often the object `x` was destroyed
  unfoldable pub destroyed : ℕ → List (Call C) → ℕ
  destroyed x [] = 0
  destroyed x (destroys_native k y ∷ cs) = hit y x + destroyed x cs
  destroyed x (other c ∷ cs) = destroyed x cs

  -- Each block counts the objects that share it.
  pub record Owned (s : State C) : Type 0 where
    pub counted : (d : ℕ) → d ≢ 0 → sharers d s.objs ≡ uses_at d s.blocks
    pub below : Below s.next s.blocks
    pub next_pos : 0 < s.next

  pub get_ok : (l : ℕ) (p : Wrapper) (s : State C) → find_key l s.objs ≡ some p → get l s ≡ ok p s
  unfolding get
  get_ok l p s e = rw (e, get)

  pub load_ok : (d : ℕ) (b : Block) (s : State C) → find_key d s.blocks ≡ some b → load d s ≡ ok b s
  unfolding load
  load_ok d b s e = rw (e, load)

  -- One object more shares the block `d`.
  pub record Shares (d : ℕ) (s : State C) (o : Outcome (State C) (Unit {0})) : Type 0 where
    pub blocks : Assoc Block
    pub done : o ≡ ok tt (record s { blocks = blocks })
    pub uses : (e : ℕ) → e ≢ 0 → uses_at e blocks ≡ uses_at e s.blocks + hit d e
    pub same : (x : ℕ) → x ≢ 0 → alive x blocks ≡ alive x s.blocks
    pub below : Below s.next s.blocks → Below s.next blocks
    pub objects : KeepObjects s.blocks blocks

  pub share_lem : (d : ℕ) (s : State C) → (d ≢ 0 → 0 < uses_at d s.blocks) → Shares d s (share d s)
  unfolding share
  share_lem d s pos = elim (Bool-cases (d == 0)) [
    | inl null ↦ rw null (record {
      blocks = s.blocks;
      done = refl;
      uses = λ e nz. ground (arith, null, nz);
      same = λ x nz. refl;
      below = λ h. h;
      objects = λ e b here. (b, (here, refl));
    })
    | inr full ↦
        let (b, there) = some_of_count (find_key d s.blocks) (pos (ground (arith, full))) in
        let more : Block = record b { uses = b.uses + 1 } in
        rw full (record {
          blocks = set_key d more s.blocks;
          done = rw (load_ok d b s there) refl;
          uses = λ e nz. ground (arith, uses-set d b more s.blocks there e, there);
          same = λ x nz. ground (arith, alive-set d b more s.blocks there x, there, pos, nz);
          below = Below-set d more s.next s.blocks;
          objects = KeepObjects-set d b more s.blocks there refl;
        })
  ]

  -- One object less shares the block `d`, and the last one destroys what it keeps.
  pub record Unshares (d : ℕ) (s : State C) (o : Outcome (State C) (Unit {0})) : Type 0 where
    pub blocks : Assoc Block
    pub calls : List (Call C)
    pub done : o ≡ ok tt (record s { blocks = blocks; calls = calls })
    pub uses : (e : ℕ) → e ≢ 0 → uses_at e blocks + hit d e ≡ uses_at e s.blocks
    pub balance :
        (x : ℕ)
        → x ≢ 0
        → alive x blocks + destroyed x calls ≡ alive x s.blocks + destroyed x s.calls
    pub below : Below s.next s.blocks → Below s.next blocks
    pub objects : KeepObjects s.blocks blocks

  last_share :
      (d : ℕ) (b : Block) (s : State C)
      → d ≢ 0
      → find_key d s.blocks ≡ some b
      → b.uses ≡ 1
      → Unshares d s (unshare d s)
  unfolding unshare destroyed
  last_share d b s nz there one =
      let none_left : Block = record b { uses = b.uses - 1 } in
      record {
        blocks = set_key d none_left s.blocks;
        calls = destroys_native b.destroyer b.object ∷ s.calls;
        done = rw (ne_false d nz, load_ok d b s there, one) refl;
        uses = λ e ez. ground (arith, uses-set d b none_left s.blocks there e, there, one);
        balance = λ x xz. ground (arith, alive-set d b none_left s.blocks there x, there, one, xz);
        below = Below-set d none_left s.next s.blocks;
        objects = KeepObjects-set d b none_left s.blocks there refl;
      }

  more_share :
      (d : ℕ) (b : Block) (s : State C)
      → d ≢ 0
      → find_key d s.blocks ≡ some b
      → 1 < b.uses
      → Unshares d s (unshare d s)
  unfolding unshare
  more_share d b s nz there many =
      let less : Block = record b { uses = b.uses - 1 } in
      let used : (b.uses == 0) ≡ false = ground (arith, many) in
      let shared : (b.uses == 1) ≡ false = ground (arith, many) in
      record {
        blocks = set_key d less s.blocks;
        calls = s.calls;
        done = rw (ne_false d nz, load_ok d b s there, used, shared) refl;
        uses = λ e ez. ground (arith, uses-set d b less s.blocks there e, there, many);
        balance = λ x xz. ground (arith, alive-set d b less s.blocks there x, there, many, xz);
        below = Below-set d less s.next s.blocks;
        objects = KeepObjects-set d b less s.blocks there refl;
      }

  pub unshare_lem :
      (d : ℕ) (s : State C) → (d ≢ 0 → 0 < uses_at d s.blocks) → Unshares d s (unshare d s)
  unfolding unshare
  unshare_lem d s pos = elim (Bool-cases (d == 0)) [
    | inl null ↦ rw null (record {
      blocks = s.blocks;
      calls = s.calls;
      done = refl;
      uses = λ e ez. ground (arith, null, ez);
      balance = λ x xz. refl;
      below = λ h. h;
      objects = λ e b here. (b, (here, refl));
    })
    | inr full ↦
        let nz : d ≢ 0 = ground (arith, full) in
        let (b, there) = some_of_count (find_key d s.blocks) (pos nz) in
        elim (Bool-cases (b.uses == 1)) [
          | inl one ↦ last_share d b s nz there (ground (arith, one))
          | inr many ↦ more_share d b s nz there (ground (arith, many, there, pos nz))
        ]
  ]

  abbrev value_of : ℕ → Outcome (State C) ℕ → ℕ
  value_of x (ok n s) = n
  value_of x (thrown e s) = x
  value_of x fault = x
  value_of x out_of_fuel = x

  -- What an object shares is alive.
  pub native-alive :
      (d x : ℕ) (s : State C)
      → (d ≢ 0 → 0 < uses_at d s.blocks)
      → native_of d s ≡ ok x s
      → x ≢ 0
      → 0 < alive x s.blocks
  unfolding native_of
  native-alive d x s pos e nz = elim (Bool-cases (d == 0)) [
    | inl null ↦ absurd (nz (sym (ap (value_of x) (rw null at e))))
    | inr full ↦
        let (b, there) = some_of_count (find_key d s.blocks) (pos (ground (arith, full))) in
        let object : b.object ≡ x = ap (value_of x) (rw (full, load_ok d b s there) at e) in
        let (n, h) = tally_pos d native_in b s.blocks there in
        ground (arith, h, object, there, pos, full)
  ]
