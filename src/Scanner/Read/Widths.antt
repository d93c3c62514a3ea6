-- ===== src/Scanner/Read/Widths.antt =====
-- The width that the scanner gives to an enumeration: enough bits for each of its values
-- (scanner/scanner.cpp).
use waylandpp.Prelude.{
  ℕ, zero, suc, ◌+◌, ◌^◌, ◌≤◌, ◌<◌, ◌≡◌, refl, Option, some, List, [], ◌∷◌, arith, inl, inr,
}
use waylandpp.Prelude.Int.{ℤ, pos}
use waylandpp.Scanner.Text.{Text, t}
use waylandpp.Scanner.Model.{EnumEntry}
use waylandpp.Scanner.Read.{value_of, entry, max, Scan, read_entries}
use waylandpp.Scanner.Read.Numbers.{signed, after_spaces}
use waylandpp.Scanner.Read.Ends.{Ends, Ends-stol}
use waylandpp.Scanner.Read.Opcodes.{Ends-entry_name}
use native.Mathlib.Nat.{pow-le-pow_right, one-le-pow}

-- The value of an entry, if it is not negative, has a place in `width` bits.
abbrev pub Fits : ℕ → EnumEntry → Type 0
Fits width e = (v : ℕ) → signed (after_spaces e.value) ≡ some (pos v) → v < 2 ^ width

unfoldable pub AllFit : ℕ → List EnumEntry → Type 0
AllFit width [] = Unit {0}
AllFit width (e ∷ es) = Fits width e × AllFit width es

-- What `std::log2` and the cast give for a value that is not 0: the place of its highest bit
abbrev pub IsLog2 : (ℤ → ℕ) → Type 0
IsLog2 log2_u32 = (v : ℕ) → 0 < v → v < 2 ^ (log2_u32 (pos v) + 1)

module _ {Node : Type 0} (attribute : Node → Text → Option Text)
    (children : Node → Text → List Node) (text : Node → Text) (log2_u32 : ℤ → ℕ)
    (is_log2 : IsLog2 log2_u32) where
  value_fits : (v w : ℕ) → log2_u32 (pos v) + 1 ≤ w → v < 2 ^ w
  value_fits zero w h = one-le-pow w 2 (omega arith)
  value_fits (suc v) w h =
      omega (arith, is_log2 (suc v) (omega arith), pow-le-pow_right {n = 2} (omega arith) h)

  -- Reading the entries of an enumeration throws or returns; if it returns, the width has a place
  -- for the value of each entry that is not negative.
  pub read_entries-AllFit :
      (ns : List Node) (w : ℕ) (s : Scan)
      → Ends
          (read_entries attribute children text log2_u32 ns w s)
          (λ r u. (w ≤ r.1) × AllFit r.1 r.0)
  unfolding read_entries AllFit
  read_entries-AllFit [] w s = inl (([], w), (s, (refl, (omega arith, tt))))
  read_entries-AllFit (n ∷ ns) w s =
      elim (Ends-entry_name (value_of attribute children text log2_u32 n (t "name")) s) [
        | inr (e, (u, h)) ↦ inr (e, (u, rw h refl))
        | inl (name, (u, (h, same))) ↦
            elim (Ends-stol (value_of attribute children text log2_u32 n (t "value")) u) [
              | inr (e, (v, k)) ↦ inr (e, (v, rw (h, k) refl))
              | inl (z, (v, (k, (same2, read)))) ↦
                  elim (read_entries-AllFit ns (max w (log2_u32 z + 1)) v) [
                    | inr (e, (x, l)) ↦ inr (e, (x, rw (h, k, l) refl))
                    | inl (r, (x, (l, (above, all)))) ↦ inl (
                      (entry attribute children text log2_u32 n name ∷ r.0, r.1),
                      (
                        x,
                        (
                          rw (h, k, l) refl,
                          (
                            ground (arith, above),
                            (λ q f. value_fits q r.1 (ground (arith, above, read, f)), all),
                          ),
                        ),
                      ),
                    )
                  ]
            ]
      ]
