-- ===== src/Store/Messages/Identity.antt =====
-- Messages are found by their id after an insertion, an edit and a removal.
use mathlib.Core.Path.{fun_ext, ◌∙◌}
use voxter.Common.{
  ◌+◌, ◌≡◌, ◌≢◌, refl, ap, String, List, [], ◌∷◌, Option, none, some, arith, length, ◌==◌,
  if◌then◌else◌, is_empty,
}
use voxter.Variant.{Value, Fields, map, to_map}
use voxter.Store.{AppStore, set_messages}
use voxter.Store.Messages.{
  id_of, message_id, put_message, upsert_message, drop_message, remove_message,
}

-- The first message with an id.
unfoldable pub find : String → List Value → Option Value
find id [] = none
find id (m ∷ ms) = if message_id m == id then some m else find id ms

-- No two messages share an id.
abbrev pub UniqueIds : List Value → Type 0
UniqueIds [] = Unit
UniqueIds (m ∷ ms) = (find (message_id m) ms ≡ none) × UniqueIds ms

module _ (message : Fields) where
  find-put_message :
      (j : String) (l : List Value)
      → find j (put_message (id_of message) message l)
        ≡ (if id_of message == j then some (map message) else find j l)
  unfolding find put_message to_map
  find-put_message j [] = ground arith
  find-put_message j (m ∷ l) = ground (arith, find-put_message j l)

  put_message-UniqueIds :
      (l : List Value) → UniqueIds l → UniqueIds (put_message (id_of message) message l)
  unfolding put_message find to_map
  put_message-UniqueIds [] u = ground arith
  put_message-UniqueIds (m ∷ l) u =
      ground (arith, put_message-UniqueIds l u.1, find-put_message (message_id m) l)

  length-put_message :
      (l : List Value)
      → length (put_message (id_of message) message l)
        ≡ (elim (find (id_of message) l) [ none ↦ length l + 1 | some _ ↦ length l ])
  unfolding put_message find
  length-put_message [] = ground arith
  length-put_message (m ∷ l) = ground (arith, length-put_message l)

abbrev or_same : Option (List Value) → List Value → List Value
or_same none l = l
or_same (some r) l = r

find-drop_message :
    (id j : String) (l : List Value)
    → UniqueIds l
    → find j (or_same (drop_message id l) l) ≡ (if id == j then none else find j l)
unfolding find drop_message
find-drop_message id j [] u = ground arith
find-drop_message id j (m ∷ l) u = ground (arith, find-drop_message id j l u.1)

drop_message-UniqueIds :
    (id : String) (l : List Value) → UniqueIds l → UniqueIds (or_same (drop_message id l) l)
unfolding find drop_message
drop_message-UniqueIds id [] u = tt
drop_message-UniqueIds id (m ∷ l) u =
    ground (arith, drop_message-UniqueIds id l u.1, find-drop_message id (message_id m) l u.1)

-- What a caller can do to the messages one at a time.
pub data Edit : Type 0 where
  upsert : Fields → Edit
  remove : String → Edit

unfoldable pub apply : Edit → AppStore → AppStore
apply (upsert message) s = upsert_message message s
apply (remove id) s = remove_message id s

unfoldable pub run : List Edit → AppStore → AppStore
run [] s = s
run (e ∷ es) s = run es (apply e s)

-- The abstract view: from each id to its message.
abbrev pub View : Type 0
View = String → Option Value

unfoldable pub apply_view : Edit → View → View
apply_view (upsert message) view j =
    if is_empty (id_of message)
    then view j
    else if id_of message == j
    then some (map message)
    else view j
apply_view (remove id) view j = if id == j then none else view j

unfoldable pub run_view : List Edit → View → View
run_view [] view = view
run_view (e ∷ es) view = run_view es (apply_view e view)

abbrev pub view_of : AppStore → View
view_of s j = find j s.messages

apply-UniqueIds : (e : Edit) (s : AppStore) → UniqueIds s.messages → UniqueIds (apply e s).messages
unfolding apply upsert_message remove_message set_messages
apply-UniqueIds (upsert message) s u = ground (arith, put_message-UniqueIds message s.messages u)
apply-UniqueIds (remove id) s u = ground (arith, drop_message-UniqueIds id s.messages u)

view_of-apply :
    (e : Edit) (s : AppStore) (j : String)
    → UniqueIds s.messages
    → view_of (apply e s) j ≡ apply_view e (view_of s) j
unfolding apply apply_view upsert_message remove_message set_messages
view_of-apply (upsert message) s j u = ground (arith, find-put_message message j s.messages)
view_of-apply (remove id) s j u = ground (arith, find-drop_message id j s.messages u)

-- If no two messages share an id, then after any edits none do.
pub run-UniqueIds :
    (es : List Edit) (s : AppStore) → UniqueIds s.messages → UniqueIds (run es s).messages
unfolding run
run-UniqueIds [] s u = u
run-UniqueIds (e ∷ es) s u = run-UniqueIds es (apply e s) (apply-UniqueIds e s u)

-- If no two messages share an id, then after any upserts and removals the message found under an
-- id is the one that a map from ids to messages holds after the same edits: an upsert writes its
-- message under its id, unless that is empty, and a removal clears its id.
pub run-refines-view :
    (es : List Edit) (s : AppStore)
    → UniqueIds s.messages
    → view_of (run es s) ≡ run_view es (view_of s)
unfolding run run_view
run-refines-view [] s u = refl
run-refines-view (e ∷ es) s u =
    run-refines-view es (apply e s) (apply-UniqueIds e s u)
    ∙ ap (run_view es) (fun_ext λ j. view_of-apply e s j u)

-- A message with an id that is new goes to the end and the list is one longer; with an id that is
-- there, the list keeps its length.
pub length-upsert_message :
    (message : Fields) (s : AppStore)
    → id_of message ≢ ""
    → length (upsert_message message s).messages ≡ (elim (view_of s (id_of message)) [
      | none ↦ length s.messages + 1
      | some _ ↦ length s.messages
    ])
unfolding upsert_message set_messages
length-upsert_message message s h = ground (arith, length-put_message message s.messages)
