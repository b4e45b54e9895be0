-- ===== src/Json.antt =====
-- json-c, as the interface that the program uses. json-c is not part of the repository: a document
-- is a value of the parameter `J` (a pointer that is not null), an operation is a field of `JsonC`,
-- and `Laws` states what its documentation promises of them. Reference counts are not modelled.
pub mod Util
pub mod Table
use libbayeux.Prelude.{
  ℕ, ◌≡◌, ◌≢◌, Bool, true, false, List, Option, none, some, if◌then◌else◌, length, ◌<◌,
}
use libbayeux.Prelude.Int.{ℤ}
use libbayeux.Libc.{CString, str_eq}

-- `json_type`, as far as the program names its values
pub data JsonType : Type 0 where
  json_boolean json_int json_string json_object : JsonType

-- `Option J` is a `json_object*` that may be null; json-c shows a JSON null as a null pointer.
pub record JsonC (J : Type 0) : Type 0 where
  -- json_object_new_object, json_object_new_array, json_object_new_string
  pub new_object : J
  pub new_array : J
  pub new_string : CString → J
  -- json_object_object_get; a missing key gives null
  pub object_get : Option J → CString → Option J
  -- json_object_object_add: the object after the call
  pub object_add : J → CString → Option J → J
  -- json_object_array_add, json_object_array_length, json_object_array_get_idx
  pub array_add : J → J → J
  -- (the length of null, or of what is no array, is undefined)
  pub array_length : Option J → Option ℕ
  pub array_get_idx : Option J → ℕ → Option J
  -- json_object_is_type and the getters
  pub is_type : J → JsonType → Bool
  pub get_boolean : J → Bool
  pub get_int : J → ℤ
  pub get_string : J → CString
  -- json_object_to_json_string and json_tokener_parse
  pub to_json_string : J → CString
  pub tokener_parse : CString → Option J

-- The document is an array: null is none, and neither is a document of another kind.
abbrev pub IsArray : {J : Type 0} → JsonC J → Option J → Type 0
IsArray json msgs = (n : ℕ) × (json.array_length msgs ≡ some n)

-- What json-c documents of these operations.
pub record Laws {J : Type 0} (json : JsonC J) : Type 0 where
  pub object-new : json.is_type json.new_object json_object ≡ true
  pub object-add :
      (o : J) (k : CString) (v : Option J)
      → json.is_type o json_object ≡ true
      → json.is_type (json.object_add o k v) json_object ≡ true
  pub get-add :
      (o : J) (k j : CString) (v : Option J)
      → json.is_type o json_object ≡ true
      → json.object_get (some (json.object_add o k v)) j
        ≡ (if str_eq k j then v else json.object_get (some o) j)
  pub get-null : (k : CString) → json.object_get none k ≡ none
  pub string-new : (s : CString) → json.is_type (json.new_string s) json_string ≡ true
  pub text-nonempty : (j : J) → 0 < length (json.to_json_string j)
  pub get_string-new : (s : CString) → json.get_string (json.new_string s) ≡ s
