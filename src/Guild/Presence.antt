-- ===== src/Guild/Presence.antt =====
-- The presence of a member.
use voxter.Common.{◌≡◌, refl, ap, ◌∙◌, String, List, [], ◌∷◌, none, some, arith, map, string_dec}
use voxter.Variant
use voxter.Variant.{Value, Fields, text, value, insert, to_map, to_string}
use voxter.Variant.Laws.{value-insert}
use voxter.Store.{set_guild_members}
use voxter.Store.Messages.{message_id, id_of}
use voxter.Store.Messages.Identity.{find}
use voxter.Guild.{Guild}
use voxter.Guild.Events.{set_presence, on_presence}

abbrev pub with_presence : String → Value → Value
with_presence status m = Variant.map (insert "presence" (text status) (to_map m))

message_id-with_presence :
    (status : String) (m : Value) → message_id (with_presence status m) ≡ message_id m
unfolding message_id id_of to_map string_dec
message_id-with_presence status m =
    ap to_string (value-insert "presence" "id" (text status) (to_map m))

abbrev set_or_same : String → String → List Value → List Value
set_or_same user status l = elim (set_presence user status l) [ none ↦ l | some r ↦ r ]

ids-set_or_same :
    (user status : String) (l : List Value)
    → map message_id (set_or_same user status l) ≡ map message_id l
unfolding set_presence
ids-set_or_same user status [] = refl
ids-set_or_same user status (m ∷ l) =
    ground (arith, ids-set_or_same user status l, message_id-with_presence status m)

find-set_or_same :
    (user status : String) (l : List Value)
    → find user (set_or_same user status l)
      ≡ (elim (find user l) [ none ↦ none | some m ↦ some (with_presence status m) ])
unfolding set_presence find
find-set_or_same user status [] = refl
find-set_or_same user status (m ∷ l) =
    ground (arith, find-set_or_same user status l, message_id-with_presence status m)

members-on_presence :
    (user status : String) (g : Guild)
    → (on_presence user status g).store.guild_members
      ≡ set_or_same user status g.store.guild_members
unfolding on_presence set_guild_members
members-on_presence user status g = ground arith

-- A presence is written into the first member with the user's id, if there is one, and the members
-- and their order stay.
pub on_presence_lem :
    (user status : String) (g : Guild)
    → (find user (on_presence user status g).store.guild_members
        ≡ (elim (find user g.store.guild_members) [
          | none ↦ none
          | some m ↦ some (with_presence status m)
        ]))
      × (map message_id (on_presence user status g).store.guild_members
          ≡ map message_id g.store.guild_members)
on_presence_lem user status g = (
  ap (find user) (members-on_presence user status g)
      ∙ find-set_or_same user status g.store.guild_members,
  ap (map message_id) (members-on_presence user status g)
      ∙ ids-set_or_same user status g.store.guild_members,
)
