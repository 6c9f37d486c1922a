-- ===== src/Storage/Memory.antt =====
-- MemoryStorage of storage/memory_storage.py: a dict from keys to objects. An object is held as
-- the value that was stored: the JSON text between `put_json` and `get_json` is the library's.
pub mod Laws
use open_devops_agent.Prelude.{
  ℕ, Bool, true, false, Option, none, some, List, [], ◌∷◌, ltb, ◌==◌, if◌then◌else◌, filter_by,
  is_some,
}
use open_devops_agent.Text.{Text, text_eq, starts_with}

abbrev pub Objects {ℓ} : Type ℓ → Type ℓ
Objects V = List (Text × V)

module _ {ℓ} {V : Type ℓ} where
  -- get_bytes and get_json
  unfoldable pub get : Text → Objects V → Option V
  unfolding text_eq
  get k [] = none
  get k ((j, v) ∷ m) = if text_eq j k then some v else get k m

  -- put_bytes and put_json: `self._objects[key] = data`
  unfoldable pub put : Text → V → Objects V → Objects V
  unfolding text_eq
  put k v [] = (k, v) ∷ []
  put k v ((j, w) ∷ m) = if text_eq j k then (k, v) ∷ m else (j, w) ∷ put k v m

  -- del self._objects[key]
  unfoldable pub remove : Text → Objects V → Objects V
  unfolding text_eq
  remove k [] = []
  remove k ((j, v) ∷ m) =
      let rest = remove k m in elim (text_eq j k) [ true ↦ rest | false ↦ (j, v) ∷ rest ]

  unfoldable pub exists : Text → Objects V → Bool
  unfolding get
  exists k m = is_some (get k m)

  unfoldable pub put_if_absent : Text → V → Objects V → Bool × Objects V
  unfolding exists put
  put_if_absent k v m = if exists k m then (false, m) else (true, put k v m)

  unfoldable pub delete : Text → Objects V → Bool × Objects V
  unfolding exists remove
  delete k m = if exists k m then (true, remove k m) else (false, m)

  -- `raw = self._objects.get(key)`, tested and deleted under the lock
  unfoldable pub consume : Text → (V → Bool) → Objects V → Bool × Objects V
  unfolding get remove
  consume k test m = elim (get k m) [
    | none ↦ (false, m)
    | some v ↦ if test v then (true, remove k m) else (false, m)
  ]

  unfoldable pub keys : Objects V → List Text
  keys [] = []
  keys ((k, v) ∷ m) = k ∷ keys m

-- The order of `sorted` on texts: by code points.
unfoldable pub text_le : Text → Text → Bool
text_le [] t = true
text_le (a ∷ s) [] = false
text_le (a ∷ s) (b ∷ t) =
    let rest = text_le s t in if ltb a b then true else if a == b then rest else false

unfoldable pub insert_sorted : Text → List Text → List Text
unfolding text_le
insert_sorted k [] = k ∷ []
insert_sorted k (j ∷ ks) = if text_le k j then k ∷ j ∷ ks else j ∷ insert_sorted k ks

unfoldable pub sorted : List Text → List Text
unfolding insert_sorted
sorted [] = []
sorted (k ∷ ks) = insert_sorted k (sorted ks)

unfoldable pub list_keys {ℓ} : {V : Type ℓ} → Text → Objects V → List Text
unfolding sorted filter_by starts_with keys
list_keys prefix m = sorted (filter_by (λ k. starts_with k prefix) (keys m))
