-- ===== src/ProviderConfig/Values.antt =====
-- Values of types.go that are given in place or by reference, and Go's text form of Booleans.
use Prim.Native.Nat.{compare, Ordering}
use Prim.Native.Char.{code}
use machine_controller.Base.{
  ℕ, String, Bool, true, false, ◌&&◌, List, [], ◌∷◌, any, ◌==◌, if◌then◌else◌,
}
use machine_controller.Outcome.{new_error, Outcome, ok, err}

-- `GlobaObjectKeySelector`, with the fields that are looked at.
pub record KeySelector : Type 0 where
  pub namespace : String
  pub name : String
  pub key : String

-- `ConfigVarString` and `ConfigVarBool`, by the type of the value.
pub record ConfigVar (A : Type 0) : Type 0 where
  pub value : A
  pub secret_key_ref : KeySelector
  pub config_map_key_ref : KeySelector

abbrev pub is_empty_ref : KeySelector → Bool
is_empty_ref ref = ref.namespace == "" && (ref.name == "" && ref.key == "")

-- `strconv.FormatBool` and `strconv.ParseBool`
abbrev pub format_bool : Bool → String
format_bool true = "true"
format_bool false = "false"

abbrev pub Bytes : Type 0
Bytes = List ℕ

abbrev pub codes : String → Bytes
codes String.[] = []
codes (String.◌∷◌ c s) = code c ∷ codes s

abbrev pub is_byte : ℕ → ℕ → Bool
is_byte a b = elim (compare a b) [ Ordering.eq ↦ true | _ ↦ false ]

abbrev same : Bytes → Bytes → Bool
same [] [] = true
same (a ∷ as₁) (b ∷ bs) = is_byte a b && same as₁ bs
same _ _ = false

abbrev one_of : List String → Bytes → Bool
one_of names b = any (λ name. same b (codes name)) names

unfoldable pub parse_bool : Bytes → Outcome Bool
parse_bool b =
    if one_of ("1" ∷ "t" ∷ "T" ∷ "TRUE" ∷ "true" ∷ "True" ∷ []) b
    then ok true
    else if one_of ("0" ∷ "f" ∷ "F" ∷ "FALSE" ∷ "false" ∷ "False" ∷ []) b
    then ok false
    else err (new_error "strconv.ParseBool: invalid syntax")
