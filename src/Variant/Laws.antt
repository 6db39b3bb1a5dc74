-- ===== src/Variant/Laws.antt =====
-- Lookups after a write to a QVariantMap, and lists in and out of a QVariant.
use voxter.Common.{◌≡◌, refl, ap, String, true, List, [], ◌∷◌, arith, ◌==◌, if◌then◌else◌}
use voxter.Variant.{
  Value, Fields, null, end, field, to_values, of_values, value, value_or, insert, has_key,
}

pub value_or-insert :
    (k j : String) (v d : Value) (f : Fields)
    → value_or (insert k v f) j d ≡ (if k == j then v else value_or f j d)
unfolding value_or insert
value_or-insert k j v d end = refl
value_or-insert k j v d (field i w f) = ground (arith, value_or-insert k j v d f)

pub value-insert :
    (k j : String) (v : Value) (f : Fields)
    → value (insert k v f) j ≡ (if k == j then v else value f j)
unfolding value
value-insert k j v f = value_or-insert k j v null f

pub has_key-insert :
    (k j : String) (v : Value) (f : Fields)
    → has_key (insert k v f) j ≡ (if k == j then true else has_key f j)
unfolding has_key insert
has_key-insert k j v end = ground arith
has_key-insert k j v (field i w f) = ground (arith, has_key-insert k j v f)

pub of_values-to_values : (l : List Value) → of_values (to_values l) ≡ l
unfolding of_values to_values
of_values-to_values [] = refl
of_values-to_values (v ∷ l) = ap (◌∷◌ v) (of_values-to_values l)
