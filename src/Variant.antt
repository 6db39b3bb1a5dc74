-- ===== src/Variant.antt =====
-- The values of Qt's QVariant and QJsonValue, as far as the client reads and writes them.
-- A QVariantMap is its entries in the order of the keys, as a QMap holds them.
-- A number is carried as the text that QVariant::toString gives for it.
pub mod Laws
use Prim.Native.Char.{code}
use Prim.Native.Nat.{Ordering}
use Prim.Native.String
use voxter.Common.{
  ℕ, ◌+◌, String, Bool, true, false, not, ◌&&◌, ◌||◌, List, [], ◌∷◌, ltb, leb, eqb, ite, string_dec,
  ◌==◌, if◌then◌else◌,
}

mutual
  pub data Value : Type 0 where
    null : Value
    boolean : Bool → Value
    number : String → Value
    text : String → Value
    list : Values → Value
    map : Fields → Value

  pub data Values : Type 0 where
    nil : Values
    cons : Value → Values → Values

  -- QVariantMap and QJsonObject
  pub data Fields : Type 0 where
    end : Fields
    field : String → Value → Fields → Fields

pub value_dec : Discrete Value
value_dec = hlevel string_dec

pub fields_dec : Discrete Fields
fields_dec = hlevel string_dec

-- QVariantList, as a library list
unfoldable pub to_values : List Value → Values
to_values [] = nil
to_values (v ∷ vs) = cons v (to_values vs)

unfoldable pub of_values : Values → List Value
of_values nil = []
of_values (cons v vs) = v ∷ of_values vs

-- the order of the keys of a QMap
key_before : String → String → Bool
key_before k j = elim (String.compare k j) [ Ordering.lt ↦ true | _ ↦ false ]

-- QMap::value with a default
unfoldable pub value_or : Fields → String → Value → Value
value_or end k d = d
value_or (field j v f) k d = if j == k then v else value_or f k d

-- QMap::value, QJsonObject::value
unfoldable pub value : Fields → String → Value
unfolding value_or
value f k = value_or f k null

-- QMap::contains
unfoldable pub has_key : Fields → String → Bool
has_key end k = false
has_key (field j v f) k = j == k || has_key f k

-- QMap::insert
unfoldable pub insert : String → Value → Fields → Fields
unfolding key_before
insert k v end = field k v end
insert k v (field j w f) =
    if j == k
    then field k v f
    else if key_before k j
    then field k v (field j w f)
    else field j w (insert k v f)

-- QVariant::toMap
unfoldable pub to_map : Value → Fields
to_map (map f) = f
to_map _ = end

-- QVariant::toList
unfoldable pub to_list : Value → List Value
unfolding of_values
to_list (list vs) = of_values vs
to_list _ = []

-- QVariant::toString
unfoldable pub to_string : Value → String
to_string (boolean b) = if b then "true" else "false"
to_string (number s) = s
to_string (text s) = s
to_string _ = ""

-- QJsonValue::toString
unfoldable pub json_string : Value → String
json_string (text s) = s
json_string _ = ""

lower_code : ℕ → ℕ
lower_code c = if leb 65 c && leb c 90 then c + 32 else c

-- compares with a text in lower case, whatever the case of the letters A to Z
same_lowered : String → String → Bool
unfolding lower_code
same_lowered String.[] String.[] = true
same_lowered (String.◌∷◌ c s) (String.◌∷◌ d t) =
    eqb (lower_code (code c)) (code d) && same_lowered s t
same_lowered _ _ = false

-- QVariant::toBool
unfoldable pub to_bool : Value → Bool
unfolding same_lowered
to_bool (boolean b) = b
to_bool (number s) = not (s == "0" || s == "-0")
to_bool (text s) = not (s == "" || s == "0" || same_lowered s "false")
to_bool _ = false

-- QJsonValue::toBool
unfoldable pub json_bool : Value → Bool
json_bool (boolean b) = b
json_bool _ = false

-- QJsonValue::isObject, QJsonValue::toObject
unfoldable pub is_object : Value → Bool
is_object (map f) = true
is_object _ = false
