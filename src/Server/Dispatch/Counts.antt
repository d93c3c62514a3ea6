-- ===== src/Server/Dispatch/Counts.antt =====
-- How the references are counted that a request leaves: lists of addresses, and room in a counter.
use waylandpp.Prelude.{
  ltb, suc, Bool, none, ◌++◌, length, ◌*◌, ℕ, ◌+◌, ◌≡◌, refl, true, some, List, [], ◌∷◌, ◌==◌,
  arith, ==_self,
}
use waylandpp.Prelude.Assoc.{find_key, hit}
use waylandpp.Runtime.{thrown, fault, out_of_fuel, u32_mod, ok, Outcome}
use waylandpp.Server.Store.{State}
use waylandpp.Server.Store.Inv.{count, Inv, no_refs}
use waylandpp.Server.Dispatch.{RequestValue, int32, uint32, double, string, resource, array}
use waylandpp.Scanner.Text.{t}

-- How often the address `d` is in a list
unfoldable pub times : List ℕ → ℕ → ℕ
times [] d = 0
times (x ∷ xs) d = hit x d + times xs d

pub times-append : (xs ys : List ℕ) (d : ℕ) → times (xs ++ ys) d ≡ times xs d + times ys d
unfolding times
times-append [] ys d = omega arith
times-append (x ∷ xs) ys d = omega (arith, times-append xs ys d)

pub length-append : (xs ys : List ℕ) → length (xs ++ ys) ≡ length xs + length ys
length-append [] ys = omega arith
length-append (x ∷ xs) ys = omega (arith, length-append xs ys)

-- How many of the values are resources
unfoldable pub resources : {Double : Type 0} → List (RequestValue Double) → ℕ
resources [] = 0
resources (int32 z ∷ vs) = resources vs
resources (uint32 n ∷ vs) = resources vs
resources (double d ∷ vs) = resources vs
resources (string s ∷ vs) = resources vs
resources (resource l ∷ vs) = suc (resources vs)
resources (array b ∷ vs) = resources vs

pub resources-cons :
    {Double : Type 0} (v : RequestValue Double) (vs : List (RequestValue Double))
    → resources (v ∷ vs) ≡ resources (v ∷ []) + resources vs
unfolding resources
resources-cons (int32 z) vs = omega arith
resources-cons (uint32 n) vs = omega arith
resources-cons (double d) vs = omega arith
resources-cons (string s) vs = omega arith
resources-cons (resource l) vs = omega arith
resources-cons (array b) vs = omega arith

-- The data of the object in `l` has room for two references more.
unfoldable pub has_room : ℕ → State → Bool
has_room l s = elim (find_key l s.objs) [
  | none ↦ true
  | some p ↦ ltb (count (s.heap p.data_ptr) + 2) u32_mod
]

abbrev pub HasRoom : ℕ → Outcome State (Unit {0}) → Type 0
HasRoom l (ok _ t) = has_room l t ≡ true
HasRoom l (thrown _ t) = Unit {0}
HasRoom l fault = Unit {0}
HasRoom l out_of_fuel = Unit {0}

-- The references that are lost: two to each data of `copied`, one to each of `made`
abbrev pub with_lost : (ℕ → ℕ) → (copied made : List ℕ) → ℕ → ℕ
with_lost lost copied made d = lost d + (2 * times copied d + times made d)

pub same-Inv :
    (lost lost' : ℕ → ℕ) (s : State)
    → Inv lost no_refs s
    → ((d : ℕ) → lost d ≡ lost' d)
    → Inv lost' no_refs s
same-Inv lost lost' s i same = record {
  owned = λ d nz. omega (arith, i.owned d nz, same d);
  fresh = i.fresh;
  small = i.small;
  null_free = i.null_free;
  next_pos = i.next_pos;
}

pub is : (a b : ℕ) → (a == b) ≡ true → a ≡ b
is a b e = ground arith

pub hit_self : (d : ℕ) → hit d d ≡ 1
hit_self d = rw (==_self d) refl
