-- ===== src/Indexer/Maps.antt =====
-- The ordered maps and the sets of indexer/src/projection.rs. A map is its entries in the order of
-- their keys; a set of events is the events in it, in no order.
use Prim.Native.String.{String}
use text.Mathlib.Text as Text
use text.Mathlib.TextEquality.{eq_iff}
use helix_protocol.Prelude.{
  ℕ, ◌≡◌, refl, Bool, true, false, ◌&&◌, Option, none, some, List, [], ◌∷◌, arith, ◌==◌, ltb,
  if◌then◌else◌,
}

abbrev pub Map {ℓ} : Type ℓ → Type ℓ
Map A = List (ℕ × A)

module _ {ℓ} {A : Type ℓ} where
  -- `BTreeMap::get`.
  unfoldable pub lookup : Map A → ℕ → Option A
  lookup [] k = none
  lookup ((j, v) ∷ m) k = if j == k then some v else lookup m k

  -- `BTreeMap::contains_key`.
  unfoldable pub contains_key : Map A → ℕ → Bool
  unfolding lookup
  contains_key m k = elim (lookup m k) [ none ↦ false | some _ ↦ true ]

  -- `entry(k).or_insert(v)`, without the write.
  unfoldable pub or_insert : A → Map A → ℕ → A
  unfolding lookup
  or_insert v m k = elim (lookup m k) [ none ↦ v | some w ↦ w ]

  -- `BTreeMap::insert`.
  unfoldable pub insert : Map A → ℕ → A → Map A
  insert [] k v = (k, v) ∷ []
  insert ((j, w) ∷ m) k v =
      let rest = insert m k v in
      if j == k then (k, v) ∷ m else if ltb k j then (k, v) ∷ (j, w) ∷ m else (j, w) ∷ rest

  -- `BTreeMap::remove`.
  unfoldable pub remove : Map A → ℕ → Map A
  remove [] k = []
  remove ((j, w) ∷ m) k = let rest = remove m k in if j == k then rest else (j, w) ∷ rest

  pub lookup-insert :
      (m : Map A) (k j : ℕ) (v : A)
      → lookup (insert m k v) j ≡ (if k == j then some v else lookup m j)
  unfolding lookup insert
  lookup-insert [] k j v = refl
  lookup-insert ((i, w) ∷ m) k j v = ground (arith, lookup-insert m k j v)

  pub lookup-remove :
      (m : Map A) (k j : ℕ) → lookup (remove m k) j ≡ (if k == j then none else lookup m j)
  unfolding lookup remove
  lookup-remove [] k j = ground arith
  lookup-remove ((i, w) ∷ m) k j = ground (arith, lookup-remove m k j)

-- `EventId`.
pub record EventId : Type 0 where
  pub signature : String
  pub log_index : ℕ

unfoldable pub same_id : EventId → EventId → Bool
same_id a b = Text.◌==◌ a.signature b.signature && a.log_index == b.log_index

-- `BTreeSet::contains`.
unfoldable pub contains : List EventId → EventId → Bool
unfolding same_id
contains [] id = false
contains (x ∷ xs) id = let rest = contains xs id in if same_id x id then true else rest

-- What `BTreeSet::insert` leaves.
unfoldable pub insert_id : List EventId → EventId → List EventId
unfolding contains
insert_id xs id = if contains xs id then xs else id ∷ xs

same_id_refl : (a : EventId) → same_id a a ≡ true
unfolding same_id
same_id_refl a = ground (arith, eq_iff a.signature a.signature)

pub contains-insert_id : (xs : List EventId) (id : EventId) → contains (insert_id xs id) id ≡ true
unfolding insert_id contains
contains-insert_id xs id = ground (arith, same_id_refl id)

-- What is in the set stays in it.
pub insert_id-keeps :
    (xs : List EventId) (id j : EventId)
    → contains xs j ≡ true
    → contains (insert_id xs id) j ≡ true
unfolding insert_id contains
insert_id-keeps xs id j h = ground arith
