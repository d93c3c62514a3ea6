-- ===== src/Client/Proxy/Invariant.antt =====
-- What holds between the calls of `proxy_t`'s methods: the counter of each data is the number of
-- objects that refer to it.
use waylandpp.Prelude.{
  ℕ, ◌+◌, ◌≤◌, ◌<◌, ◌≡◌, ◌≢◌, true, not, ◌||◌, Option, none, some, [], ◌∷◌, arith, ◌==◌, Bool-cases,
  inl, inr,
}
use waylandpp.Runtime.{u32_mod}
use waylandpp.Client.Proxy.Objects.{
  Proxy, Loc, var, wrapped, loc_eq, Objs, get_obj, set_obj, erase_obj, refs, loc_eq_sound,
}
use waylandpp.Client.Proxy.{ProxyData, State, is_foreign}

abbrev pub count : Option ProxyData → ℕ
count none = 0
count (some c) = c.counter

-- An object with data is no foreign one, and a wrapped proxy's data is older than the data that
-- holds it.
abbrev pub Fits : Loc → Proxy → Type 0
Fits (var n) p = (p.data_ptr == 0 || not (is_foreign p.type)) ≡ true
Fits (wrapped d) p = ((p.data_ptr == 0 || not (is_foreign p.type)) ≡ true) × (p.data_ptr < d)

abbrev pub AllFit : Objs → Type 0
AllFit [] = Unit {0}
AllFit ((l, p) ∷ os) = Fits l p × AllFit os

-- `owed d` is the number of references to the data at `d` that its counter does not count, because
-- they are being given up, and `lost d` the number that it counts with no object to give them up.
pub record Inv (lost owed : ℕ → ℕ) (s : State) : Type 0 where
  pub owned : (d : ℕ) → d ≢ 0 → refs d s.objs + lost d ≡ count (s.heap d) + owed d
  pub fits : AllFit s.objs
  pub members : (d : ℕ) → 0 < count (s.heap d) → get_obj (wrapped d) s.objs ≢ none
  pub fresh : (d : ℕ) → s.next ≤ d → s.heap d ≡ none
  pub small : (d : ℕ) → count (s.heap d) < u32_mod
  pub null_free : s.heap 0 ≡ none
  pub next_pos : 0 < s.next

abbrev pub no_refs : ℕ → ℕ
no_refs d = 0

-- Each data is counted once for each object that refers to it.
abbrev pub IsBalanced : State → Type 0
IsBalanced = Inv no_refs no_refs

pub get-Fits : (l : Loc) (p : Proxy) (os : Objs) → AllFit os → get_obj l os ≡ some p → Fits l p
unfolding get_obj
get-Fits l p [] h e = ground arith
get-Fits l p ((k, q) ∷ os) h e = elim (Bool-cases (loc_eq k l)) [
  | inl same ↦
      rw (← loc_eq_sound k l same) (let found : q ≡ p = ground (arith, same) in rw found at h.0)
  | inr other ↦ get-Fits l p os h.1 (ground (arith, other))
]

pub set-AllFit : (l : Loc) (q : Proxy) (os : Objs) → AllFit os → Fits l q → AllFit (set_obj l q os)
unfolding set_obj
set-AllFit l q [] h f = tt
set-AllFit l q ((k, r) ∷ os) h f = elim (Bool-cases (loc_eq k l)) [
  | inl same ↦ rw same (rw (loc_eq_sound k l same) (f, h.1))
  | inr other ↦ rw other (h.0, set-AllFit l q os h.1 f)
]

pub erase-AllFit : (l : Loc) (os : Objs) → AllFit os → AllFit (erase_obj l os)
unfolding erase_obj
erase-AllFit l [] h = tt
erase-AllFit l ((k, r) ∷ os) h = elim (Bool-cases (loc_eq k l)) [
  | inl same ↦ rw same h.1
  | inr other ↦ rw other (h.0, erase-AllFit l os h.1)
]
