-- ===== src/Scanner/Model.antt =====
-- The elements of a protocol description, as the scanner holds them (scanner/scanner.cpp).
use waylandpp.Prelude.{ℕ, Bool, List}
use waylandpp.Prelude.Int.{ℤ}
use waylandpp.Scanner.Text.{Text}

-- `argument_t`
pub record Argument : Type 0 where
  pub name : Text
  pub summary : Text
  pub type : Text
  pub interface : Text
  pub enum_iface : Text
  pub enum_name : Text
  pub allow_null : Bool

-- `event_t`, and `request_t`, which adds nothing to it
pub record Event : Type 0 where
  pub name : Text
  pub summary : Text
  pub description : Text
  pub args : List Argument
  pub since : ℤ
  pub ret : Argument
  pub opcode : ℕ

-- `enum_entry_t`
pub record EnumEntry : Type 0 where
  pub name : Text
  pub summary : Text
  pub description : Text
  pub value : Text

-- `enumeration_t`
pub record Enumeration : Type 0 where
  pub name : Text
  pub summary : Text
  pub description : Text
  pub entries : List EnumEntry
  pub bitfield : Bool
  pub id : ℕ
  pub width : ℕ

-- `post_error_t`
pub record PostError : Type 0 where
  pub name : Text
  pub summary : Text
  pub description : Text

-- `interface_t`; `destroy_opcode` is -1 if there is no request `destroy`.
pub record Interface : Type 0 where
  pub name : Text
  pub summary : Text
  pub description : Text
  pub version : ℤ
  pub orig_name : Text
  pub destroy_opcode : ℤ
  pub requests : List Event
  pub events : List Event
  pub enums : List Enumeration
  pub errors : List PostError
