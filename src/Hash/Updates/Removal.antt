-- ===== src/Hash/Updates/Removal.antt =====
-- Removal from the vector: the pairs that move down keep their text.
use druta_db.Prelude.{
  ℕ, ◌+◌, ◌≡◌, refl, none, [], ◌∷◌, arith, if◌then◌else◌, length, Bytes, bytes_key, same, same_iff,
}
use druta_db.Text.Storage.{StdString, move_assign}
use druta_db.Ordered.Map.{found}
use druta_db.Hash.{VectorData, find_vector, close_gap, del_vector}
use druta_db.Hash.Contents.{chars_of, IsDistinct, result, chars-move}

find_vector-close_gap :
    (hole : StdString × StdString) (vec : VectorData) (g : Bytes)
    → chars_of (find_vector (close_gap hole vec) g) ≡ chars_of (find_vector vec g)
unfolding find_vector close_gap
find_vector-close_gap hole [] g = refl
find_vector-close_gap hole ((name, value) ∷ vec) g =
    let first = move_assign hole.0 name in
    let second = move_assign hole.1 value in
    ground (
      arith,
      find_vector-close_gap (first.1, second.1) vec g,
      chars-move hole.0 name,
      chars-move hole.1 value,
    )

absent-close_gap :
    (hole : StdString × StdString) (vec : VectorData) (g : Bytes)
    → find_vector vec g ≡ none
    → find_vector (close_gap hole vec) g ≡ none
absent-close_gap hole vec g h = ground (arith, find_vector-close_gap hole vec g)

length-close_gap :
    (hole : StdString × StdString) (vec : VectorData) → length (close_gap hole vec) ≡ length vec
unfolding close_gap
length-close_gap hole [] = refl
length-close_gap hole ((name, value) ∷ vec) =
    let first = move_assign hole.0 name in
    let second = move_assign hole.1 value in omega (arith, length-close_gap (first.1, second.1) vec)

close_gap-IsDistinct :
    (hole : StdString × StdString) (vec : VectorData)
    → IsDistinct vec
    → IsDistinct (close_gap hole vec)
unfolding close_gap
close_gap-IsDistinct hole [] d = tt
close_gap-IsDistinct hole ((name, value) ∷ vec) d =
    let first = move_assign hole.0 name in
    let second = move_assign hole.1 value in
    (
      rw (chars-move hole.0 name) (absent-close_gap (first.1, second.1) vec name.chars d.0),
      close_gap-IsDistinct (first.1, second.1) vec d.1,
    )

module _ (field : Bytes) (mem : ℕ) where
  pub find_vector-del :
      (vec : VectorData) (g : Bytes)
      → IsDistinct vec
      → chars_of (find_vector (result vec (del_vector vec field mem)) g)
        ≡ (if same field g then none else chars_of (find_vector vec g))
  unfolding find_vector del_vector
  find_vector-del [] g d = ground arith
  find_vector-del ((name, value) ∷ vec) g d = ground (
    arith,
    find_vector-del vec g,
    find_vector-close_gap (name, value) vec g,
    same_iff name.chars field,
    same_iff name.chars g,
    same_iff field g,
  )

  pub del-found :
      (vec : VectorData) → found (del_vector vec field mem) ≡ found (find_vector vec field)
  unfolding find_vector del_vector
  del-found [] = refl
  del-found ((name, value) ∷ vec) = ground (arith, del-found vec)

  pub length-del :
      (vec : VectorData)
      → length (result vec (del_vector vec field mem)) + found (find_vector vec field) ≡ length vec
  unfolding find_vector del_vector
  length-del [] = omega arith
  length-del ((name, value) ∷ vec) =
      ground (arith, length-del vec, length-close_gap (name, value) vec)

  absent-del :
      (vec : VectorData) (g : Bytes)
      → IsDistinct vec
      → find_vector vec g ≡ none
      → find_vector (result vec (del_vector vec field mem)) g ≡ none
  absent-del vec g d h = ground (arith, find_vector-del vec g d, same_iff field g)

  pub del-IsDistinct :
      (vec : VectorData) → IsDistinct vec → IsDistinct (result vec (del_vector vec field mem))
  unfolding del_vector
  del-IsDistinct [] d = tt
  del-IsDistinct ((name, value) ∷ vec) d =
      ground (
        arith,
        absent-del vec name.chars,
        del-IsDistinct vec,
        close_gap-IsDistinct (name, value) vec,
      )
