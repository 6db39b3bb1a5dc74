-- ===== src/Voice/Fetch/Hashes.antt =====
-- QHash and QSet, as far as the participants' calls use them.
use voxter.Common.{◌≡◌, refl, String, true, false, List, [], ◌∷◌, arith, contains}
use voxter.Voice.Fetch.{hash_value, hash_insert, hash_remove, set_remove}

pub hash_value-insert {ℓ} :
    {A : Type ℓ} (k : String) (a d : A) (l : List (String × A))
    → hash_value (hash_insert k a l) k d ≡ a
unfolding hash_value hash_insert
hash_value-insert k a d [] = ground arith
hash_value-insert k a d ((j, b) ∷ l) = ground (arith, hash_value-insert k a d l)

pub hash_value-remove {ℓ} :
    {A : Type ℓ} (k : String) (d : A) (l : List (String × A)) → hash_value (hash_remove k l) k d ≡ d
unfolding hash_value hash_remove
hash_value-remove k d [] = refl
hash_value-remove k d ((j, b) ∷ l) = ground (arith, hash_value-remove k d l)

pub contains-set_remove : (k : String) (l : List String) → contains (set_remove k l) k ≡ false
unfolding set_remove
contains-set_remove k [] = refl
contains-set_remove k (j ∷ l) = ground (arith, contains-set_remove k l)

pub contains_self : (k : String) (l : List String) → contains (k ∷ l) k ≡ true
contains_self k l = ground arith
