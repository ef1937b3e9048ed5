-- ===== src/Json.antt =====
-- The values that `JSON.parse` gives, over a type of numbers (the language's doubles), and the tests
-- that the source makes on them. An object's fields have distinct names.
use ddsds.Common.{String, Bool, true, false, Option, none, some, str_eq, if◌then◌else◌}

mutual
  pub data Json (N : Type 0) : Type 0 where
    null : Json N
    boolean : Bool → Json N
    num : N → Json N
    str : String → Json N
    array : Items N → Json N
    object : Fields N → Json N

  pub data Items (N : Type 0) : Type 0 where
    nil : Items N
    cons : Json N → Items N → Items N

  pub data Fields (N : Type 0) : Type 0 where
    end : Fields N
    field : String → Json N → Fields N → Fields N

module _ {N : Type 0} where
  lookup_field : String → Fields N → Option (Json N)
  lookup_field k end = none
  lookup_field k (field j v rest) = if str_eq j k then some v else lookup_field k rest

  -- `value[key]`; only objects have the fields that the source asks for.
  unfoldable pub get : String → Json N → Option (Json N)
  unfolding lookup_field
  get k (object fs) = lookup_field k fs
  get k v = none

  -- `typeof v === 'object' && v !== null`
  unfoldable pub is_object : Json N → Bool
  is_object (object fs) = true
  is_object (array xs) = true
  is_object v = false

  -- `typeof v === 'number'`, for a field that may be missing.
  unfoldable pub is_number : Option (Json N) → Bool
  is_number (some (num n)) = true
  is_number v = false

  unfoldable pub is_string : Option (Json N) → Bool
  is_string (some (str s)) = true
  is_string v = false

  -- `v === s`
  unfoldable pub is_text : String → Option (Json N) → Bool
  is_text s (some (str r)) = str_eq r s
  is_text s v = false
