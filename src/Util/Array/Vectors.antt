-- ===== src/Util/Array/Vectors.antt =====
-- Vectors stored in an array and read again.
use waylandpp.Prelude.{
  ℕ, zero, suc, ◌+◌, ◌*◌, ◌%◌, ◌^◌, ◌≤◌, ◌<◌, ◌≡◌, refl, ap, ◌∙◌, true, false, ltb, Option, none,
  some, List, [], ◌∷◌, ◌++◌, length, length-append, get_elem?, take, drop, length-drop, take-append,
  drop-append, arith, Option-cases, inl, inr,
}
use waylandpp.Runtime.{ok, fault, and_then, u32_mod, inc32}
use waylandpp.Util.Array.{vector_at, write_elements, read_elements, from_vector, to_vector}

at_ok :
    {T : Type 0} (v : List T) (c : ℕ) (x : T) → get_elem? v c ≡ some x → vector_at v c tt ≡ ok x tt
unfolding vector_at
at_ok v c x e = rw (e, vector_at) refl

module _ {T : Type 0} (size : ℕ) (encode : T → List ℕ) (decode : List ℕ → T) where
  abbrev pub bytes_of : List T → List ℕ
  bytes_of [] = []
  bytes_of (x ∷ v) = encode x ++ bytes_of v

  -- What is kept of a vector, if there is memory for it
  abbrev pub stored : Option (List ℕ) → List T → List T
  stored none v = []
  stored (some bytes) v = v

  module _ (pos : 0 < size) where
    write_elements_lem :
        (k n c : ℕ) (v rest : List T) (bytes : List ℕ)
        → length bytes ≤ k
        → length bytes ≡ length rest * size
        → c ≡ n % u32_mod
        → n + length rest ≤ 2 ^ 32
        → ((i : ℕ) → get_elem? v (n + i) ≡ get_elem? rest i)
        → write_elements size encode decode k v c bytes tt ≡ ok (bytes_of rest) tt
    unfolding write_elements
    write_elements_lem k n c v [] [] fuel full index room same = refl
    write_elements_lem k n c v [] (b ∷ bs) fuel full index room same = absurd (omega (arith, full))
    write_elements_lem k n c v (x ∷ rest) [] fuel full index room same =
        absurd (omega (arith, full, pos))
    write_elements_lem zero n c v (x ∷ rest) (b ∷ bs) fuel full index room same =
        absurd (omega (arith, fuel))
    write_elements_lem (suc k) n c v (x ∷ rest) (b ∷ bs) fuel full index room same =
        let next =
          write_elements_lem k (suc n) (inc32 c) v rest (drop size (b ∷ bs))
            (omega (arith, fuel, length-drop size (b ∷ bs), pos))
            (omega (arith, full, length-drop size (b ∷ bs))) (omega (arith, index))
            (omega (arith, room)) (λ i. ap (get_elem? v) (omega arith) ∙ same (suc i)) in
        let here = at_ok v c x (ap (get_elem? v) (omega (arith, index, room)) ∙ same 0) in
        let whole : ltb (length (b ∷ bs)) size ≡ false = ground (arith, full) in
        rw (here, whole, next) refl

    module _ (width : (x : T) → length (encode x) ≡ size) where
      length-bytes_of : (v : List T) → length (bytes_of v) ≡ length v * size
      length-bytes_of [] = omega arith
      length-bytes_of (x ∷ v) =
          omega (arith, length-append (encode x) (bytes_of v), width x, length-bytes_of v)

      read_bytes_of :
          ((x : T) → decode (encode x) ≡ x)
          → (k : ℕ) (v : List T) (bytes : List ℕ) → bytes ≡ bytes_of v
          → length bytes ≤ k
          → read_elements size encode decode k bytes tt ≡ ok v tt
      unfolding read_elements
      read_bytes_of same k [] [] e fuel = refl
      read_bytes_of same k [] (b ∷ bs) e fuel = absurd (omega (arith, ap length e))
      read_bytes_of same k (x ∷ v) [] e fuel =
          absurd (omega (arith, ap length e, length-bytes_of (x ∷ v), pos))
      read_bytes_of same zero (x ∷ v) (b ∷ bs) e fuel = absurd (omega (arith, fuel))
      read_bytes_of same (suc k) (x ∷ v) (b ∷ bs) e fuel =
          let size_of = ap length e ∙ length-bytes_of (x ∷ v) in
          let later = ap (drop size) e ∙ drop-append (encode x) (bytes_of v) size (width x) in
          let first = ap (take size) e ∙ take-append (encode x) (bytes_of v) size (width x) in
          let whole : ltb (length (b ∷ bs)) size ≡ false = ground (arith, size_of) in
          let rest =
            read_bytes_of same k v (drop size (b ∷ bs)) later
              (omega (arith, fuel, pos, length-drop size (b ∷ bs))) in
          rw (whole, rest, first, same x) refl

      -- A vector with at most 2 ^ 32 elements, whose size times its length is the size of the memory that
      -- `wl_array_add` gives, is read as it was stored; if `wl_array_add` fails, as the empty vector, without an error.
      pub to_vector-from_vector :
          ((x : T) → decode (encode x) ≡ x)
          → (fresh : ℕ → Option (List ℕ)) (v : List T)
          → ((n : ℕ) (bytes : List ℕ) → fresh n ≡ some bytes → length bytes ≡ n)
          → length v ≤ 2 ^ 32
          → and_then (from_vector size encode decode fresh v tt) (to_vector size encode decode)
            ≡ ok (stored (fresh (length v * size)) v) tt
      unfolding from_vector to_vector
      to_vector-from_vector same fresh v sized room =
          elim (Option-cases (fresh (length v * size))) [
            | inl nothing ↦ rw (nothing, from_vector) refl
            | inr (bytes, there) ↦
                let full = sized _ bytes there in
                let written =
                  write_elements_lem (length bytes) 0 0 v v bytes (omega arith) full refl
                    (omega (arith, room)) (λ i. ap (get_elem? v) (omega arith)) in
                rw (there, from_vector, written)
                  (read_bytes_of same (length (bytes_of v)) v (bytes_of v) refl (omega arith))
          ]

    -- An array whose length is not divisible by the size of an element: the last element is read past its end.
    read_elements-faults :
        (k n r : ℕ) (bytes : List ℕ)
        → length bytes ≤ k
        → length bytes ≡ n * size + r
        → 0 < r
        → r < size
        → read_elements size encode decode k bytes tt ≡ fault
    unfolding read_elements
    read_elements-faults k n r [] fuel full over less = absurd (omega (arith, full, over))
    read_elements-faults zero n r (b ∷ bs) fuel full over less = absurd (omega (arith, fuel))
    read_elements-faults (suc k) zero r (b ∷ bs) fuel full over less =
        let short : ltb (length (b ∷ bs)) size ≡ true = ground (arith, full, less) in rw short refl
    read_elements-faults (suc k) (suc n) r (b ∷ bs) fuel full over less =
        let whole : ltb (length (b ∷ bs)) size ≡ false = ground (arith, full) in
        let rest =
          read_elements-faults k n r (drop size (b ∷ bs))
            (omega (arith, fuel, pos, length-drop size (b ∷ bs)))
            (omega (arith, full, length-drop size (b ∷ bs))) over less in
        rw (whole, rest) refl

    -- Reading an array as a vector of a type whose size does not divide the number of bytes reads past the end of
    -- the array.
    pub to_vector-faults :
        (n r : ℕ) (bytes : List ℕ)
        → length bytes ≡ n * size + r
        → 0 < r
        → r < size
        → to_vector size encode decode bytes tt ≡ fault
    unfolding to_vector
    to_vector-faults n r bytes full over less =
        read_elements-faults (length bytes) n r bytes (omega arith) full over less
