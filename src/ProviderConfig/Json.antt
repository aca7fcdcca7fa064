-- ===== src/ProviderConfig/Json.antt =====
-- MarshalJSON and UnmarshalJSON of types.go, over bytes. `encode` and `decode` stand for
-- `json.Marshal` of a reference and `json.Unmarshal` of an object.
use machine_controller.Base.{
  ℕ, ◌≡◌, refl, ap, Bool, true, false, ◌&&◌, [], ◌∷◌, ◌++◌, if◌then◌else◌, arith, Bool-cases, inl,
  inr,
}
use machine_controller.Outcome.{wrapped, Outcome, ok, err, panicked}
use machine_controller.ProviderConfig.Values.{
  KeySelector, ConfigVar, Bytes, codes, is_byte, is_empty_ref, format_bool, parse_bool,
}

abbrev pub quote : ℕ
quote = 34

abbrev pub brace : ℕ
brace = 123

-- `bytes.HasPrefix(b, []byte("{"))`
abbrev pub is_object : Bytes → Bool
is_object [] = false
is_object (x ∷ _) = is_byte x brace

-- `bytes.TrimPrefix` and `bytes.TrimSuffix` of one quote
abbrev pub trim_prefix : Bytes → Bytes
trim_prefix [] = []
trim_prefix (x ∷ b) = if is_byte x quote then b else x ∷ b

abbrev pub trim_suffix : Bytes → Bytes
trim_suffix [] = []
trim_suffix (x ∷ []) = if is_byte x quote then [] else x ∷ []
trim_suffix (x ∷ y ∷ b) = x ∷ trim_suffix (y ∷ b)

abbrev is_nonempty : Bytes → Bool
is_nonempty [] = false
is_nonempty (_ ∷ _) = true

abbrev no_ref : {A : Type 0} → ConfigVar A → Bool
no_ref v = is_empty_ref v.secret_key_ref && is_empty_ref v.config_map_key_ref

infixl 5 ◌>>=◌
abbrev ◌>>=◌ : {A B : Type 0} → Outcome A → (A → Outcome B) → Outcome B
ok a >>= f = f a
err e >>= f = err e
panicked >>= f = panicked

module _ (encode : KeySelector → Outcome Bytes) where
  -- `"name":` and the reference, or nothing for an empty reference
  unfoldable pub member : Bytes → KeySelector → Outcome Bytes
  member name ref = if is_empty_ref ref then ok [] else (do text ← encode ref; ok (name ++ text))

  abbrev comma : {A : Type 0} → ConfigVar A → Bytes
  comma v =
      if is_empty_ref v.secret_key_ref
      then []
      else (if is_empty_ref v.config_map_key_ref then [] else codes ",")

  unfoldable pub marshal_string : ConfigVar Bytes → Outcome Bytes
  marshal_string v = if no_ref v then ok (quote ∷ v.value ++ quote ∷ []) else do
    secret ← member (codes "\"secretKeyRef\":") v.secret_key_ref
    config_map ← member (codes "\"configMapKeyRef\":") v.config_map_key_ref
    let value = if is_nonempty v.value then codes ",\"value\":\"" ++ (v.value ++ quote ∷ []) else []
    ok (brace ∷ secret ++ (comma v ++ (config_map ++ (value ++ codes "}"))))

  unfoldable pub marshal_bool : ConfigVar Bool → Outcome Bytes
  marshal_bool v = if no_ref v then ok (codes (format_bool v.value)) else do
    secret ← member (codes "\"secretKeyRef\":") v.secret_key_ref
    config_map ← member (codes "\"configMapKeyRef\":") v.config_map_key_ref
    ok (
        brace ∷ secret
        ++ (comma v
            ++ (config_map ++ (codes ",\"value\":" ++ (codes (format_bool v.value) ++ codes "}")))))

-- The receiver keeps its references where the text is a plain value.
unfoldable pub unmarshal_string :
    (Bytes → Outcome (ConfigVar Bytes)) → ConfigVar Bytes → Bytes → Outcome (ConfigVar Bytes)
unmarshal_string decode r b =
    if is_object b then decode b else ok (record r { value = trim_suffix (trim_prefix b) })

unfoldable pub unmarshal_bool :
    (Bytes → Outcome (ConfigVar Bool)) → ConfigVar Bool → Bytes → Outcome (ConfigVar Bool)
unmarshal_bool decode r b = if is_object b then decode b else elim (parse_bool b) [
  | ok value ↦ ok (record r { value = value })
  | err e ↦ err (wrapped "Error converting string to bool" e)
  | panicked ↦ panicked
]

trim_suffix-quoted : (b : Bytes) → trim_suffix (b ++ quote ∷ []) ≡ b
trim_suffix-quoted [] = refl
trim_suffix-quoted (x ∷ []) = refl
trim_suffix-quoted (x ∷ y ∷ b) = ap (λ r. x ∷ r) (trim_suffix-quoted (y ∷ b))

-- A block that ends in an object ends in one whatever stands before.
is_object-bind :
    {A : Type 0} (m : Outcome A) (f : A → Outcome Bytes) (b : Bytes)
    → ((a : A) → f a ≡ ok b → is_object b ≡ true)
    → (m >>= f) ≡ ok b
    → is_object b ≡ true
is_object-bind (ok a) f b h e = h a e
is_object-bind (err x) f b h e = cc
is_object-bind panicked f b h e = cc

is_object-brace : (text b : Bytes) → ok (brace ∷ text) ≡ ok b → is_object b ≡ true
is_object-brace text b e = ground arith

module _ (encode : KeySelector → Outcome Bytes) where
  is_object-marshal_string :
      (v : ConfigVar Bytes) (b : Bytes)
      → no_ref v ≡ false
      → marshal_string encode v ≡ ok b
      → is_object b ≡ true
  unfolding marshal_string
  is_object-marshal_string v b referring e =
      is_object-bind (member encode (codes "\"secretKeyRef\":") v.secret_key_ref) _ b
        (λ secret.
          is_object-bind (member encode (codes "\"configMapKeyRef\":") v.config_map_key_ref) _ b
            (λ config_map. is_object-brace _ b))
        (rw referring at e)

  is_object-marshal_bool :
      (v : ConfigVar Bool) (b : Bytes)
      → no_ref v ≡ false
      → marshal_bool encode v ≡ ok b
      → is_object b ≡ true
  unfolding marshal_bool
  is_object-marshal_bool v b referring e =
      is_object-bind (member encode (codes "\"secretKeyRef\":") v.secret_key_ref) _ b
        (λ secret.
          is_object-bind (member encode (codes "\"configMapKeyRef\":") v.config_map_key_ref) _ b
            (λ config_map. is_object-brace _ b))
        (rw referring at e)

  -- The text that a string value is marshalled to is read back in the way that fits it: without
  -- references it is the same value, byte for byte, whatever bytes it has, and the references of
  -- the receiver stay; with a reference it goes to the decoder of objects.
  pub unmarshal_string-marshal_string :
      (decode : Bytes → Outcome (ConfigVar Bytes)) (v r : ConfigVar Bytes) (b : Bytes)
      → marshal_string encode v ≡ ok b
      → unmarshal_string decode r b
        ≡ (if no_ref v then ok (record r { value = v.value }) else decode b)
  unfolding marshal_string unmarshal_string
  unmarshal_string-marshal_string decode v r b e = elim (Bool-cases (no_ref v)) [
    | inl plain ↦ ground (arith, plain, e, trim_suffix-quoted v.value)
    | inr referring ↦ rw referring (rw (is_object-marshal_string v b referring e))
  ]

  -- The same for Booleans, which are written as bare words.
  pub unmarshal_bool-marshal_bool :
      (decode : Bytes → Outcome (ConfigVar Bool)) (v r : ConfigVar Bool) (b : Bytes)
      → marshal_bool encode v ≡ ok b
      → unmarshal_bool decode r b
        ≡ (if no_ref v then ok (record r { value = v.value }) else decode b)
  unfolding marshal_bool unmarshal_bool parse_bool
  unmarshal_bool-marshal_bool decode v r b e = elim (Bool-cases (no_ref v)) [
    | inl plain ↦ rw plain (rw (← plain_text plain) (word v.value))
    | inr referring ↦ rw referring (rw (is_object-marshal_bool v b referring e))
  ]
    where
      plain_text : no_ref v ≡ true → codes (format_bool v.value) ≡ b
      plain_text plain = ground (arith, plain, e)

      word :
          (value : Bool)
          → unmarshal_bool decode r (codes (format_bool value)) ≡ ok (record r { value = value })
      word true = refl
      word false = refl
