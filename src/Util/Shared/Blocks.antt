-- ===== src/Util/Shared/Blocks.antt =====
-- The blocks of the `shared_ptr`s: their numbers, their counts and the objects that they keep.
use waylandpp.Prelude.{
  ℕ, ◌+◌, ◌≤◌, ◌<◌, ◌≡◌, ◌≢◌, refl, sym, ap, ◌∙◌, false, Option, none, some, [], ◌∷◌, arith, ◌==◌,
  if◌then◌else◌, Bool-cases, inl, inr, ==_self,
}
use waylandpp.Prelude.Assoc.{
  Assoc, hit, eq_of, find_key, set_key, tally, tally-set, find-set_self, find-set_ne,
}
use waylandpp.Util.Shared.{Block, Wrapper}

abbrev pub count : Option Block → ℕ
count none = 0
count (some b) = b.uses

abbrev pub uses_at : ℕ → Assoc Block → ℕ
uses_at d bs = count (find_key d bs)

-- How many objects share the block `d`
abbrev pub sharers : ℕ → Assoc Wrapper → ℕ
sharers d os = tally (λ p. p.block) d os

-- The native object of a block, if it has not been destroyed
abbrev pub native_in : Block → ℕ
native_in b = if b.uses == 0 then 0 else b.object

-- How many blocks keep the native object `x`
abbrev pub alive : ℕ → Assoc Block → ℕ
alive x bs = tally native_in x bs

pub some_of_count : (o : Option Block) → 0 < count o → (b : Block) × (o ≡ some b)
some_of_count none pos = absurd (omega arith)
some_of_count (some b) pos = (b, refl)

-- The blocks are numbered from 1 to below `n`, each one once, the last one first.
unfoldable pub Below : ℕ → Assoc Block → Type 0
Below n [] = Unit {0}
Below n ((k, b) ∷ bs) = (k < n) × ((0 < k) × Below k bs)

pub Below-set :
    (d : ℕ) (c : Block) (n : ℕ) (bs : Assoc Block) → Below n bs → Below n (set_key d c bs)
unfolding Below set_key
Below-set d c n [] h = tt
Below-set d c n ((k, b) ∷ bs) (lt, (pos, rest)) = elim (Bool-cases (k == d)) [
  | inl same ↦ rw same (lt, (pos, rest))
  | inr ne ↦ rw ne (lt, (pos, Below-set d c k bs rest))
]

-- There is no block with the number `n` or a larger one.
pub fresh : (n : ℕ) (bs : Assoc Block) → Below n bs → (d : ℕ) → n ≤ d → uses_at d bs ≡ 0
unfolding Below find_key
fresh n [] h d above = refl
fresh n ((k, b) ∷ bs) (lt, (pos, rest)) d above =
    let other : (k == d) ≡ false = ground (arith, above, lt) in
    rw other (fresh k bs rest d (omega (arith, above, lt)))

-- Blocks that nothing shares keep nothing.
pub none_alive :
    (n : ℕ) (bs : Assoc Block)
    → Below n bs
    → ((d : ℕ) → d ≢ 0 → uses_at d bs ≡ 0)
    → (x : ℕ) → x ≢ 0
    → alive x bs ≡ 0
unfolding Below find_key tally
none_alive n [] h none_used x nz = refl
none_alive n ((k, b) ∷ bs) (lt, (pos, rest)) none_used x nz =
    let others : (d : ℕ) → d ≢ 0 → uses_at d bs ≡ 0 =
      λ d dz. ground (arith, none_used d dz, fresh k bs rest d) in
    ground (arith, none_used k, pos, none_alive k bs rest others x nz, nz, ==_self k)

abbrev pub object_of : Block → Option Block → ℕ
object_of c none = c.object
object_of c (some b) = b.object

-- Every block of the first list is there in the second one, and keeps the same object.
abbrev pub KeepObjects : Assoc Block → Assoc Block → Type 0
KeepObjects bs cs =
    (e : ℕ) (b : Block)
    → find_key e bs ≡ some b
    → (c : Block) × ((find_key e cs ≡ some c) × (c.object ≡ b.object))

pub KeepObjects-set :
    (d : ℕ) (b c : Block) (bs : Assoc Block)
    → find_key d bs ≡ some b
    → c.object ≡ b.object
    → KeepObjects bs (set_key d c bs)
KeepObjects-set d b c bs here same e a there = elim (Bool-cases (d == e)) [
  | inl eq ↦ (
    c,
    (
      ap (λ k. find_key k (set_key d c bs)) (sym (eq_of d e eq)) ∙ find-set_self d c b bs here,
      same ∙ ap (object_of c) (sym here ∙ ap (λ k. find_key k bs) (eq_of d e eq) ∙ there),
    ),
  )
  | inr ne ↦ (a, (find-set_ne d e c bs ne ∙ there, refl))
]

module _ (d : ℕ) (b c : Block) (bs : Assoc Block) (here : find_key d bs ≡ some b) where
  pub uses-set : (e : ℕ) → uses_at e (set_key d c bs) ≡ (if d == e then c.uses else uses_at e bs)
  uses-set e = elim (Bool-cases (d == e)) [
    | inl same ↦ rw same (
        ap (λ k. count (find_key k (set_key d c bs))) (sym (eq_of d e same))
        ∙ ap count (find-set_self d c b bs here))
    | inr ne ↦ rw ne (ap count (find-set_ne d e c bs ne))
  ]

  pub alive-set :
      (x : ℕ) → alive x (set_key d c bs) + hit (native_in b) x ≡ alive x bs + hit (native_in c) x
  alive-set x = tally-set d native_in x c b bs here
