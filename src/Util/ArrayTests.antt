-- ===== src/Util/ArrayTests.antt =====
-- Arrays of numbers of two bytes, and the flags of `fd_event_mask_t`.
use waylandpp.Prelude.{
  ℕ, zero, suc, ◌+◌, ◌-◌, ◌^◌, ◌*◌, ◌/◌, ◌%◌, ◌≡◌, refl, Option, some, List, [], ◌∷◌, arith, length,
}
use waylandpp.Runtime.{ok, fault, and_then}
use waylandpp.Util.Array.{from_vector, to_vector}
use waylandpp.Util.Bitfield.{complement}
use waylandpp.Util.Bitfield.Complement.{complement-complement}
use waylandpp.Util.Array.Vectors.{to_vector-from_vector, to_vector-faults}

abbrev encode : ℕ → List ℕ
encode x = x % 256 ∷ x / 256 ∷ []

abbrev decode : List ℕ → ℕ
decode (low ∷ high ∷ []) = low + 256 * high
decode _ = 0

abbrev zeros : ℕ → List ℕ
zeros zero = []
zeros (suc n) = 0 ∷ zeros n

abbrev fresh : ℕ → Option (List ℕ)
fresh n = some (zeros n)

length-zeros : (n : ℕ) → length (zeros n) ≡ n
length-zeros zero = refl
length-zeros (suc n) = omega (arith, length-zeros n)

to_vector-from_vector_example :
    and_then (from_vector 2 encode decode fresh (7 ∷ 300 ∷ []) tt) (to_vector 2 encode decode)
    ≡ ok (7 ∷ 300 ∷ []) tt
to_vector-from_vector_example =
    to_vector-from_vector 2 encode decode (omega arith) (λ x. refl) (λ x. omega arith) fresh
      (7 ∷ 300 ∷ []) (λ n bytes e. ground (arith, length-zeros n)) (omega arith)

to_vector-faults_example : to_vector 2 encode decode (1 ∷ 2 ∷ 3 ∷ []) tt ≡ fault
to_vector-faults_example =
    to_vector-faults 2 encode decode (omega arith) 1 1 (1 ∷ 2 ∷ 3 ∷ []) refl (omega arith)
      (omega arith)

-- The readable and the hangup flag: the hangup flag is lost.
complement-complement_example :
    (complement 2 5 + 5 % 2 ^ 2 ≡ 2 ^ 2 - 1) × (complement 2 (complement 2 5) ≡ 5 % 2 ^ 2)
complement-complement_example = complement-complement 2 5 (omega arith) (omega arith)
