-- ===== src/Util/Array.antt =====
-- `array_t` of src/wayland-util.cpp and include/wayland-util.hpp: the content of a `wl_array`, its bytes. What
-- libwayland allocates and frees for it is not part of the model.
pub mod Vectors
use waylandpp.Prelude.{
  ℕ, zero, suc, ◌+◌, ◌*◌, Bool, true, false, ltb, if◌then◌else◌, Option, none, some, List, [], ◌∷◌,
  ◌++◌, length, get_elem?, take, drop,
}
use waylandpp.Runtime.{ok, out_of_fuel, out_of_range, M, pure, throw, undefined, inc32, ◌>>=◌, ◌>>◌}

abbrev pub Run : Type 0 → Type 0
Run = M (Unit {0})

-- `array_t()`
abbrev pub construct : List ℕ
construct = []

-- `copies` tells for which contents `wl_array_copy` succeeds; where it fails it leaves the empty array. The
-- code does not look at what it returns.
module _ (copies : List ℕ → Bool) where
  -- `array_t(wl_array *)`, `array_t(const array_t &)` and `array_t::get`
  unfoldable pub copied : List ℕ → List ℕ
  copied a = if copies a then a else []

  -- `operator=(const array_t &)`, with whether both are the same object
  unfoldable pub copy_assign : Bool → List ℕ → List ℕ → List ℕ
  unfolding copied
  copy_assign same a b = if same then a else copied b

-- `array_t(array_t &&)` and `operator=(array_t &&)`: both arrays afterwards
abbrev pub move_assign : List ℕ → List ℕ → List ℕ × List ℕ
move_assign a b = (b, a)

abbrev pub move_construct : List ℕ → List ℕ × List ℕ
move_construct b = move_assign construct b

-- `v.at(c)`
unfoldable pub vector_at : {T : Type 0} → List T → ℕ → Run T
vector_at v c s = elim (get_elem? v c) [ none ↦ throw out_of_range s | some x ↦ ok x s ]

-- The element type `T`: its size and its bytes
module _ {T : Type 0} (size : ℕ) (encode : T → List ℕ) (decode : List ℕ → T) where
  -- The loop `wl_array_for_each_cpp(p, &a) *p = v.at(c++)`, from the bytes at `p` on, on fuel; a write
  -- that passes the end of the array is undefined behaviour.
  unfoldable pub write_elements : ℕ → List T → ℕ → List ℕ → Run (List ℕ)
  write_elements k v c [] = pure []
  write_elements zero v c (b ∷ bs) = λ s. out_of_fuel
  write_elements (suc k) v c (b ∷ bs) = do
    let rest = write_elements k v (inc32 c) (drop size (b ∷ bs))
    x ← vector_at v c
    if ltb (length (b ∷ bs)) size then undefined else pure tt
    out ← rest
    pure (encode x ++ out)

  -- The loop `wl_array_for_each_cpp(p, &a) v.push_back(*p)`
  unfoldable pub read_elements : ℕ → List ℕ → Run (List T)
  read_elements k [] = pure []
  read_elements zero (b ∷ bs) = λ s. out_of_fuel
  read_elements (suc k) (b ∷ bs) = do
    let rest = read_elements k (drop size (b ∷ bs))
    if ltb (length (b ∷ bs)) size then undefined else pure tt
    xs ← rest
    pure (decode (take size (b ∷ bs)) ∷ xs)

  -- `fresh` is the memory that `wl_array_add` gives for so many bytes: nothing, if it fails.
  module _ (fresh : ℕ → Option (List ℕ)) where
    -- `array_t(const std::vector<T> &)`
    unfoldable pub from_vector : List T → Run (List ℕ)
    unfolding write_elements
    from_vector v s = elim (fresh (length v * size)) [
      | none ↦ pure [] s
      | some bytes ↦ write_elements (length bytes) v 0 bytes s
    ]

    -- `operator=(const std::vector<T> &)`, which releases the old content first
    unfoldable pub assign_vector : List ℕ → List T → Run (List ℕ)
    unfolding from_vector
    assign_vector old v = from_vector v

  -- `operator std::vector<T>()`
  unfoldable pub to_vector : List ℕ → Run (List T)
  unfolding read_elements
  to_vector bytes = read_elements (length bytes) bytes
