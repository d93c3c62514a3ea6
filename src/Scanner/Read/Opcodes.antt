-- ===== src/Scanner/Read/Opcodes.antt =====
-- The numbers that the scanner gives: opcodes in the order of the description, and one identifier for
-- each enumeration (scanner/scanner.cpp).
use waylandpp.Prelude.{
  ℕ, zero, suc, ◌+◌, ◌≡◌, ◌∙◌, refl, Option, List, [], ◌∷◌, ◌++◌, map, length, arith, Option-cases,
  inl, inr, Bool-cases, ap, ◌||◌,
}
use waylandpp.Prelude.Int.{ℤ, pos}
use waylandpp.Runtime.{logic_error}
use waylandpp.Scanner.Text.{Text, t, text_eq, is_digit}
use waylandpp.Scanner.Model.{Argument, Event, Enumeration, Interface}
use waylandpp.Scanner.Names.{unprefix}
use waylandpp.Scanner.Read.{
  value_of, entry, enumeration, interface, max, Scan, number_of, message, read_message,
  read_messages, read_argument, read_entries, read_enum, read_enums, read_interface, entry_name,
}
use waylandpp.Scanner.Read.Ends.{Ends, Ends-stoi, Ends-stol}

-- `n` numbers in a row
unfoldable pub from : ℕ → ℕ → List ℕ
from c zero = []
from c (suc n) = c ∷ from (c + 1) n

abbrev pub opcodes : List Event → List ℕ
opcodes = map (λ m. m.opcode)

abbrev pub head : Event → Text × List Argument
head m = (m.name, m.args)

abbrev pub ids : List Enumeration → List ℕ
ids = map (λ e. e.id)

pub Ends-entry_name : (v : Text) (s : Scan) → Ends (entry_name v s) (λ name u. u ≡ s)
unfolding entry_name
Ends-entry_name [] s = inr (logic_error "basic_string::at", (s, refl))
Ends-entry_name (c ∷ v) s = elim (Bool-cases (text_eq (c ∷ v) (t "default") || is_digit c)) [
  | inl h ↦ inl (b'_' ∷ c ∷ v, (s, (rw h refl, refl)))
  | inr h ↦ inl (c ∷ v, (s, (rw h refl, refl)))
]

module _ {Node : Type 0} (attribute : Node → Text → Option Text)
    (children : Node → Text → List Node) (text : Node → Text) (log2_u32 : ℤ → ℕ) where
  Ends-number_of :
      (n : Node) (k : Text) (s : Scan)
      → Ends (number_of attribute children text log2_u32 n k s) (λ z u. u ≡ s)
  unfolding number_of
  Ends-number_of n k s = elim (Option-cases (attribute n k)) [
    | inl e ↦ inl (pos 1, (s, (rw (e, number_of) refl, refl)))
    | inr (v, e) ↦ rw (e, number_of) (Ends-stoi v s)
  ]

  -- What a message takes from its element: its name and its arguments
  abbrev pub head_of : Text → Node → Text × List Argument
  head_of iface n = (
    value_of attribute children text log2_u32 n (t "name"),
    map (read_argument attribute children text log2_u32 iface) (children n (t "arg")),
  )

  Ends-read_message :
      (iface : Text) (c : ℕ) (n : Node) (s : Scan)
      → Ends
          (read_message attribute children text log2_u32 iface c n s)
          (λ m u. ((m.opcode ≡ c) × (head m ≡ head_of iface n)) × (u ≡ s))
  unfolding read_message
  Ends-read_message iface c n s = elim (Ends-number_of n (t "since") s) [
    | inr (e, (u, h)) ↦ inr (e, (u, rw h refl))
    | inl (z, (u, (h, same))) ↦ inl (
      message attribute children text log2_u32 iface c n z,
      (u, (rw h refl, ((refl, refl), same))),
    )
  ]

  -- The messages are those of the elements, in their order, and are numbered from `c` on.
  Ends-read_messages :
      (iface : Text) (c : ℕ) (ns : List Node) (s : Scan)
      → Ends (read_messages attribute children text log2_u32 iface c ns s) (λ ms u.
        ((opcodes ms ≡ from c (length ns)) × (map head ms ≡ map (head_of iface) ns)) × (u ≡ s))
  unfolding read_messages from
  Ends-read_messages iface c [] s = inl ([], (s, (refl, ((refl, refl), refl))))
  Ends-read_messages iface c (n ∷ ns) s = elim (Ends-read_message iface c n s) [
    | inr (e, (u, h)) ↦ inr (e, (u, rw h refl))
    | inl (m, (u, (h, ((first, own), same)))) ↦ elim (Ends-read_messages iface (c + 1) ns u) [
      | inr (e, (v, k)) ↦ inr (e, (v, rw (h, k) refl))
      | inl (ms, (v, (k, ((row, rest), same2)))) ↦ inl (
        m ∷ ms,
        (v, (rw (h, k) refl, ((rw (first, row) refl, rw (own, rest) refl), same2 ∙ same))),
      )
    ]
  ]

  Ends-read_entries :
      (ns : List Node) (w : ℕ) (s : Scan)
      → Ends (read_entries attribute children text log2_u32 ns w s) (λ r u. u ≡ s)
  unfolding read_entries
  Ends-read_entries [] w s = inl (([], w), (s, (refl, refl)))
  Ends-read_entries (n ∷ ns) w s =
      elim (Ends-entry_name (value_of attribute children text log2_u32 n (t "name")) s) [
        | inr (e, (u, h)) ↦ inr (e, (u, rw h refl))
        | inl (name, (u, (h, same))) ↦
            elim (Ends-stol (value_of attribute children text log2_u32 n (t "value")) u) [
              | inr (e, (v, k)) ↦ inr (e, (v, rw (h, k) refl))
              | inl (z, (v, (k, (same2, _)))) ↦
                  elim (Ends-read_entries ns (max w (log2_u32 z + 1)) v) [
                    | inr (e, (x, l)) ↦ inr (e, (x, rw (h, k, l) refl))
                    | inl (r, (x, (l, same3))) ↦ inl (
                      (entry attribute children text log2_u32 n name ∷ r.0, r.1),
                      (x, (rw (h, k, l) refl, same3 ∙ same2 ∙ same)),
                    )
                  ]
            ]
      ]

  abbrev pub name_of : Node → Text
  name_of n = value_of attribute children text log2_u32 n (t "name")

  -- Each enumeration takes the next identifier.
  Ends-read_enum :
      (n : Node) (s : Scan)
      → Ends
          (read_enum attribute children text log2_u32 n s)
          (λ e u. ((e.id ≡ s.enum_id) × (e.name ≡ name_of n)) × (u.enum_id ≡ s.enum_id + 1))
  unfolding read_enum
  Ends-read_enum n s =
      elim (Ends-read_entries (children n (t "entry")) 0 (record s { enum_id = s.enum_id + 1 })) [
        | inr (e, (u, h)) ↦ inr (e, (u, rw h refl))
        | inl (r, (u, (h, same))) ↦ inl (
          enumeration attribute children text log2_u32 n s.enum_id r,
          (u, (rw h refl, ((refl, refl), ap (λ x. x.enum_id) same))),
        )
      ]

  Ends-read_enums :
      (ns : List Node) (s : Scan)
      → Ends (read_enums attribute children text log2_u32 ns s) (λ es u.
        ((ids es ≡ from s.enum_id (length ns)) × (map (λ e. e.name) es ≡ map name_of ns))
        × (u.enum_id ≡ s.enum_id + length ns))
  unfolding read_enums from
  Ends-read_enums [] s = inl ([], (s, (refl, ((refl, refl), omega arith))))
  Ends-read_enums (n ∷ ns) s = elim (Ends-read_enum n s) [
    | inr (e, (u, h)) ↦ inr (e, (u, rw h refl))
    | inl (m, (u, (h, ((first, own), next)))) ↦ elim (Ends-read_enums ns u) [
      | inr (e, (v, k)) ↦ inr (e, (v, rw (h, k) refl))
      | inl (ms, (v, (k, ((row, rest), last)))) ↦ inl (
        m ∷ ms,
        (
          v,
          (
            rw (h, k) refl,
            ((rw (first, row, next) refl, rw (own, rest) refl), omega (arith, last, next)),
          ),
        ),
      )
    ]
  ]

  -- The messages of the elements `ns`, in their order, numbered from 0 on
  abbrev pub AreNumbered : Text → List Node → List Event → Type 0
  AreNumbered iface ns ms =
      (opcodes ms ≡ from 0 (length ns)) × (map head ms ≡ map (head_of iface) ns)

  -- What reading an interface numbers: requests and events from 0 on in the order of the
  -- description, enumerations from the next identifier on.
  abbrev pub IsNumbered : Node → Scan → Interface → Scan → Type 0
  IsNumbered n s i u =
      AreNumbered (unprefix (name_of n)) (children n (t "request")) i.requests
      × (AreNumbered (unprefix (name_of n)) (children n (t "event")) i.events
          × ((ids i.enums ≡ from s.enum_id (length (children n (t "enum"))))
              × ((map (λ e. e.name) i.enums ≡ map name_of (children n (t "enum")))
                  × (u.enum_id ≡ s.enum_id + length (children n (t "enum"))))))

  -- Reading an interface throws or returns. If it returns, its requests are those of its elements
  -- `request`, in their order, each with the name and the arguments of its own element and with the
  -- opcodes 0, 1, and so on; so are its events for the elements `event`. Its enumerations have the
  -- names of its elements `enum`, in their order, and the next identifiers in a row, past which the
  -- next one of all stands afterwards.
  pub read_interface-IsNumbered :
      (n : Node) (s : Scan)
      → Ends (read_interface attribute children text log2_u32 n s) (IsNumbered n s)
  unfolding read_interface
  read_interface-IsNumbered n s =
      let name : Text = unprefix (value_of attribute children text log2_u32 n (t "name")) in
      let named : Scan → Scan =
        λ u. record u { interface_names = u.interface_names ++ name ∷ [] } in
      elim (Ends-number_of n (t "version") s) [
        | inr (e, (u, h)) ↦ inr (e, (u, rw h refl))
        | inl (z, (u, (h, same))) ↦
            elim (Ends-read_messages name 0 (children n (t "request")) (named u)) [
              | inr (e, (v, k)) ↦ inr (e, (v, rw (h, k) refl))
              | inl (rs, (v, (k, (row, same2)))) ↦
                  elim (Ends-read_messages name 0 (children n (t "event")) v) [
                    | inr (e, (x, l)) ↦ inr (e, (x, rw (h, k, l) refl))
                    | inl (es, (x, (l, (row2, same3)))) ↦
                        elim (Ends-read_enums (children n (t "enum")) x) [
                          | inr (e, (y, m)) ↦ inr (e, (y, rw (h, k, l, m) refl))
                          | inl (ds, (y, (m, ((row3, names), last)))) ↦
                              let kept : x.enum_id ≡ s.enum_id =
                                ap (λ q. q.enum_id) (same3 ∙ same2) ∙ ap (λ q. q.enum_id) same in
                              inl (
                                interface attribute children text log2_u32 n z rs es ds,
                                (
                                  y,
                                  (
                                    rw (h, k, l, m) refl,
                                    (
                                      row,
                                      (
                                        row2,
                                        (rw (← kept) row3, (names, omega (arith, last, kept))),
                                      ),
                                    ),
                                  ),
                                ),
                              )
                        ]
                  ]
            ]
      ]
