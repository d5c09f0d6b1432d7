-- ===== src/Endpoint/Rest/Json.antt =====
-- What src/endpoint/restful.c uses of the Jansson library; `J` is its `json_t *`.
use nvme_dem.Prelude.{
  ◌+◌, ◌-◌, ◌%◌, ◌^◌, ◌<◌, ◌≡◌, false, List, [], ◌∷◌, Option, none, some, arith, map, any, CStr,
  streq, ℤ, pos, negsuc, pos_part, neg_part,
}
use nvme_dem.Dem.Config.Oob.{jsstr, jsindx, object}
use nvme_dem.Dem.Discovery.Command.{to_int32}

-- `none` is a null pointer. `integer_value` of what is no integer is 0.
pub record Jansson (J : Type 0) : Type 0 where
  pub loads : CStr → Option J
  pub object_get : J → CStr → Option J
  pub string_value : J → Option CStr
  pub integer_value : J → ℤ

-- A `json_int_t` of 64 bits stored in an `int`.
unfoldable pub int_of : ℤ → ℤ
int_of z = to_int32 ((pos_part z + 2 ^ 64 - neg_part z) % 2 ^ 32)

abbrev pub IsInt : ℤ → Type 0
IsInt (pos n) = n < 2 ^ 31
IsInt (negsuc n) = n < 2 ^ 31

pub int_of_fits : (z : ℤ) → IsInt z → int_of z ≡ z
unfolding int_of
int_of_fits (pos n) h = ground arith
int_of_fits (negsuc n) h = ground arith

-- A member of an object that the DEM prints.
pub data Field : Type 0 where
  text : CStr → CStr → Field
  number : CStr → ℤ → Field

abbrev pub printed : Field → CStr
printed (text tag s) = jsstr tag s
printed (number tag z) = jsindx tag z

abbrev pub tag_of : Field → CStr
tag_of (text tag s) = tag
tag_of (number tag z) = tag

module _ {J : Type 0} (json : Jansson J) where
  -- What a member of that name is read as.
  abbrev pub IsValue : J → Field → Type 0
  IsValue o (text tag s) = json.string_value o ≡ some s
  IsValue o (number tag z) = json.integer_value o ≡ z

  abbrev pub Has : J → List Field → Type 0
  Has j [] = Unit
  Has j (f ∷ fs) = ((o : J) × (json.object_get j (tag_of f) ≡ some o) × IsValue o f) × Has j fs

  -- The library reads the object of these members, whose names differ, and finds them and no other.
  pub record Reads (fs : List Field) : Type 0 where
    pub value : J
    pub loaded : json.loads (object (map printed fs)) ≡ some value
    pub has : Has value fs
    pub absent :
        (tag : CStr) → any (λ f. streq (tag_of f) tag) fs ≡ false → json.object_get value tag ≡ none
