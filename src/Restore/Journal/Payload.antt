-- ===== src/Restore/Journal/Payload.antt =====
-- The JSON of a journal, and what restore/journal.py takes from Python's libraries.
use Prim.Native.Char.{Char}
use redline_os.Prelude.{
  ℕ, String, Bool, false, Option, none, some, string_eq, nat_eq, ◌==◌, if◌then◌else◌,
}

-- A number that is whole and not negative, `1.0` among them, and any other.
mutual
  pub data Json : Type 0 where
    null : Json
    boolean : Bool → Json
    whole : ℕ → Json
    other_number text : String → Json
    array : Items → Json
    object : Fields → Json

  pub data Items : Type 0 where
    no_items : Items
    item : Json → Items → Items

  pub data Fields : Type 0 where
    no_fields : Fields
    field : String → Json → Fields → Fields

-- `payload.get(key)`
unfoldable pub value_of : String → Fields → Option Json
value_of key no_fields = none
value_of key (field k j fields) =
    let rest = value_of key fields in if k == key then some j else rest

-- `payload.get(...) == n`: in Python `True == 1` and `False == 0`.
abbrev pub is_number : ℕ → Option Json → Bool
is_number n none = false
is_number n (some j) = elim j [
  | boolean b ↦ n == (if b then 1 else 0)
  | whole m ↦ n == m
  | null ↦ false
  | other_number digits ↦ false
  | text t ↦ false
  | array _ ↦ false
  | object _ ↦ false
]

-- `value if isinstance(value, str)`
abbrev pub as_text : Option Json → Option String
as_text none = none
as_text (some j) = elim j [
  | text t ↦ some t
  | null ↦ none
  | boolean b ↦ none
  | whole n ↦ none
  | other_number digits ↦ none
  | array _ ↦ none
  | object _ ↦ none
]

-- hashlib's `sha256(data).hexdigest()`, json's `dumps(payload, sort_keys=True, ...)` and `loads`
-- (none: a ValueError), and the digits that `\d` and `int` know.
pub record Runtime : Type 0 where
  pub sha256_hex : String → String
  pub dumps : Fields → String
  pub loads : String → Option Json
  pub digit_value : Char → Option ℕ
