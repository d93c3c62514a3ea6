-- ===== src/Scanner/Read.antt =====
-- How the scanner reads a protocol description: the loops of `main` over the elements of the XML
-- document, up to the list of interfaces (scanner/scanner.cpp).
--
-- The document is what pugixml makes of it: `attribute`, `children` and `text` stand for its methods.
pub mod Numbers
pub mod Ends
pub mod Opcodes
pub mod Widths
mod Tests
use waylandpp.Prelude.{
  ℕ, ◌+◌, Bool, true, false, ◌||◌, ◌&&◌, Option, none, some, List, [], ◌∷◌, ◌++◌, map, ltb,
  if◌then◌else◌,
}
use waylandpp.Prelude.Int.{ℤ, pos, negsuc}
use waylandpp.Runtime.{logic_error, M, ok, pure, throw, ◌>>=◌, ◌>>◌}
use waylandpp.Scanner.Text.{Text, t, text_eq, is_digit, find, take, drop}
use waylandpp.Scanner.Model.{Argument, Event, EnumEntry, Enumeration, PostError, Interface}
use waylandpp.Scanner.Names.{unprefix}
use Numbers.{stoi, stol}

-- What `main` changes while it reads: `enum_id` and the global `interface_names`
pub record Scan : Type 0 where
  pub enum_id : ℕ
  pub interface_names : List Text

-- An argument as it is declared: all members empty
abbrev pub no_argument : Argument
no_argument = record {
  name = [];
  summary = [];
  type = [];
  interface = [];
  enum_iface = [];
  enum_name = [];
  allow_null = false;
}

-- `if(arg.type == "new_id") ret = arg`, along the arguments
unfoldable pub ret_of : Argument → List Argument → Argument
ret_of r [] = r
ret_of r (a ∷ args) = ret_of (if text_eq a.type (t "new_id") then a else r) args

-- `if(req.name == "destroy") destroy_opcode = req.opcode`, along the requests
unfoldable pub destroy_opcode_of : ℤ → List Event → ℤ
destroy_opcode_of z [] = z
destroy_opcode_of z (r ∷ rs) =
    destroy_opcode_of (if text_eq r.name (t "destroy") then pos r.opcode else z) rs

-- The errors of an enumeration `error`
abbrev pub to_error : EnumEntry → PostError
to_error e = record { name = e.name; summary = e.summary; description = e.description }

unfoldable pub errors_of : List Enumeration → List PostError
errors_of [] = []
errors_of (e ∷ es) =
    (if text_eq e.name (t "error") then map to_error e.entries else []) ++ errors_of es

abbrev pub max : ℕ → ℕ → ℕ
max a b = if ltb a b then b else a

-- The name of an entry gets an underscore if it is `default` or begins with a digit.
unfoldable pub entry_name : Text → M Scan Text
entry_name [] = throw (logic_error "basic_string::at")
entry_name (c ∷ s) =
    if text_eq (c ∷ s) (t "default") || is_digit c then pure (b'_' ∷ c ∷ s) else pure (c ∷ s)

-- `log2_u32 v` is what `static_cast<uint32_t>(std::log2(v))` gives, which C++ leaves open for v ≤ 0.
module _ {Node : Type 0} (attribute : Node → Text → Option Text)
    (children : Node → Text → List Node) (text : Node → Text) (log2_u32 : ℤ → ℕ) where
  -- `attribute(k).value()`, empty without the attribute
  abbrev pub value_of : Node → Text → Text
  value_of n k = elim (attribute n k) [ none ↦ [] | some v ↦ v ]

  -- The summary and the text of the first child `description`
  abbrev pub summary_of : Node → Text
  summary_of n = elim (children n (t "description")) [ [] ↦ [] | d ∷ ds ↦ value_of d (t "summary") ]

  abbrev pub description_of : Node → Text
  description_of n = elim (children n (t "description")) [ [] ↦ [] | d ∷ ds ↦ text d ]

  -- `since` of a message and `version` of an interface, 1 without the attribute
  unfoldable pub number_of : Node → Text → M Scan ℤ
  number_of n k = elim (attribute n k) [ none ↦ pure (pos 1) | some v ↦ stoi v ]

  -- The interface and the name of an argument's enumeration
  unfoldable pub enum_of : Text → Node → Text × Text
  enum_of iface n = elim (attribute n (t "enum")) [
    | none ↦ ([], [])
    | some e ↦ elim (find b'.' e) [
      | none ↦ (iface, e)
      | some k ↦ (unprefix (take k e), drop (k + 1) e)
    ]
  ]

  unfoldable pub read_argument : Text → Node → Argument
  read_argument iface n = record {
    type = value_of n (t "type");
    name = value_of n (t "name");
    summary = value_of n (t "summary");
    interface = elim (attribute n (t "interface")) [ none ↦ [] | some i ↦ unprefix i ];
    enum_iface = (enum_of iface n).0;
    enum_name = (enum_of iface n).1;
    allow_null = text_eq (value_of n (t "allow-null")) (t "true");
  }

  -- A request or an event whose `since` has been read
  abbrev pub message : Text → ℕ → Node → ℤ → Event
  message iface opcode n since =
      let args : List Argument = map (read_argument iface) (children n (t "arg")) in
      record {
        name = value_of n (t "name");
        summary = summary_of n;
        description = description_of n;
        args = args;
        since = since;
        ret = ret_of no_argument args;
        opcode = opcode;
      }

  unfoldable pub read_message : Text → ℕ → Node → M Scan Event
  read_message iface opcode n = do
    since ← number_of n (t "since")
    pure (message iface opcode n since)

  -- The loops over requests and events
  unfoldable pub read_messages : Text → ℕ → List Node → M Scan (List Event)
  read_messages iface opcode [] = pure []
  read_messages iface opcode (n ∷ ns) = do
    m ← read_message iface opcode n
    ms ← read_messages iface (opcode + 1) ns
    pure (m ∷ ms)

  abbrev pub entry : Node → Text → EnumEntry
  entry n name = record {
    name = name;
    summary = value_of n (t "summary");
    description = [];
    value = value_of n (t "value");
  }

  -- The loop over the entries of an enumeration, with the width so far
  unfoldable pub read_entries : List Node → ℕ → M Scan (List EnumEntry × ℕ)
  read_entries [] width = pure ([], width)
  read_entries (n ∷ ns) width = do
    name ← entry_name (value_of n (t "name"))
    v ← stol (value_of n (t "value"))
    r ← read_entries ns (max width (log2_u32 v + 1))
    pure (entry n name ∷ r.0, r.1)

  abbrev pub next_enum_id : M Scan ℕ
  next_enum_id s = ok s.enum_id (record s { enum_id = s.enum_id + 1 })

  abbrev pub enumeration : Node → ℕ → (List EnumEntry × ℕ) → Enumeration
  enumeration n id r = record {
    name = value_of n (t "name");
    summary = summary_of n;
    description = description_of n;
    entries = r.0;
    bitfield = text_eq (value_of n (t "bitfield")) (t "true");
    id = id;
    width = r.1;
  }

  unfoldable pub read_enum : Node → M Scan Enumeration
  read_enum n = do
    id ← next_enum_id
    r ← read_entries (children n (t "entry")) 0
    pure (enumeration n id r)

  unfoldable pub read_enums : List Node → M Scan (List Enumeration)
  read_enums [] = pure []
  read_enums (n ∷ ns) = do e ← read_enum n; es ← read_enums ns; pure (e ∷ es)

  abbrev pub push_name : Text → M Scan (Unit {0})
  push_name name s = ok tt (record s { interface_names = s.interface_names ++ name ∷ [] })

  abbrev pub interface : Node → ℤ → List Event → List Event → List Enumeration → Interface
  interface n version requests events enums = record {
    name = unprefix (value_of n (t "name"));
    summary = summary_of n;
    description = description_of n;
    version = version;
    orig_name = value_of n (t "name");
    destroy_opcode = destroy_opcode_of (negsuc 0) requests;
    requests = requests;
    events = events;
    enums = enums;
    errors = errors_of enums;
  }

  unfoldable pub read_interface : Node → M Scan Interface
  read_interface n = do
    let name = unprefix (value_of n (t "name"))
    version ← number_of n (t "version")
    push_name name
    requests ← read_messages name 0 (children n (t "request"))
    events ← read_messages name 0 (children n (t "event"))
    enums ← read_enums (children n (t "enum"))
    pure (interface n version requests events enums)

  unfoldable pub read_interfaces : List Node → M Scan (List Interface)
  read_interfaces [] = pure []
  read_interfaces (n ∷ ns) = do i ← read_interface n; is ← read_interfaces ns; pure (i ∷ is)
