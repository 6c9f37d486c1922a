-- ===== src/Storage/Memory/Laws.antt =====
-- The laws of the in-memory provider: a read after a write, and what `list_keys` lists.
use open_devops_agent.Prelude.{
  ◌≡◌, refl, ◌⊎◌, inl, inr, Bool, true, none, some, List, [], ◌∷◌, arith, if◌then◌else◌, filter_by,
  In, All, is_some,
}
use open_devops_agent.Text.{Text, text_eq, starts_with}
use open_devops_agent.Text.Laws.{text_eq_iff}
use open_devops_agent.Storage.Memory.{
  Objects, get, put, remove, exists, put_if_absent, delete, keys, insert_sorted, sorted, list_keys,
}

module _ {ℓ} {V : Type ℓ} where
  pub get-put :
      (k j : Text) (v : V) (m : Objects V)
      → get j (put k v m) ≡ (if text_eq k j then some v else get j m)
  unfolding get put
  get-put k j v [] = refl
  get-put k j v ((i, w) ∷ m) =
      ground (arith, text_eq_iff k j, text_eq_iff i k, text_eq_iff i j, get-put k j v m)

  pub get-remove :
      (k j : Text) (m : Objects V) → get j (remove k m) ≡ (if text_eq k j then none else get j m)
  unfolding get remove
  get-remove k j [] = ground arith
  get-remove k j ((i, v) ∷ m) =
      ground (arith, get-remove k j m, text_eq_iff i k, text_eq_iff i j, text_eq_iff k j)

  -- One object is created, and only where there was none; all other keys keep their objects.
  pub get-put_if_absent :
      (k j : Text) (v : V) (m : Objects V)
      → get j (put_if_absent k v m).1
        ≡ (if text_eq k j then (if exists k m then get k m else some v) else get j m)
  unfolding put_if_absent
  get-put_if_absent k j v m = ground (arith, get-put k j v m, text_eq_iff k j)

  -- After `delete` the key has no object; all other keys keep theirs.
  pub get-delete :
      (k j : Text) (m : Objects V) → get j (delete k m).1 ≡ (if text_eq k j then none else get j m)
  unfolding delete exists
  get-delete k j m = ground (arith, get-remove k j m, text_eq_iff k j)

  In-keys : (k : Text) (m : Objects V) → In k (keys m) → is_some (get k m) ≡ true
  unfolding get keys
  In-keys k ((j, v) ∷ m) (inl e) = ground (arith, text_eq_iff j k)
  In-keys k ((j, v) ∷ m) (inr r) = ground (arith, In-keys k m r)
  In-keys k [] h = absurd h

In-insert_sorted : (a k : Text) (ks : List Text) → In a (insert_sorted k ks) → (a ≡ k) ⊎ In a ks
unfolding insert_sorted
In-insert_sorted a k [] h = h
In-insert_sorted a k (j ∷ ks) h = ground (arith, In-insert_sorted a k ks)

In-sorted : (a : Text) (ks : List Text) → In a (sorted ks) → In a ks
unfolding sorted
In-sorted a [] h = h
In-sorted a (k ∷ ks) h = elim (In-insert_sorted a k (sorted ks) h) [
  | inl e ↦ inl e
  | inr r ↦ inr (In-sorted a ks r)
]

In-filter_by :
    (p : Text → Bool) (a : Text) (ks : List Text) → In a (filter_by p ks) → In a ks × (p a ≡ true)
unfolding filter_by
In-filter_by p a [] h = absurd h
In-filter_by p a (k ∷ ks) h = ground (arith, In-filter_by p a ks)

-- Every key that `list_keys` lists starts with the prefix and has an object.
pub In-list_keys {ℓ} :
    {V : Type ℓ} (prefix k : Text) (m : Objects V)
    → In k (list_keys prefix m)
    → (starts_with k prefix ≡ true) × (is_some (get k m) ≡ true)
unfolding list_keys
In-list_keys prefix k m h =
    let (listed, fits) = In-filter_by (λ j. starts_with j prefix) k (keys m) (In-sorted k _ h) in
    (fits, In-keys k m listed)

All-of_In : (P : Text → Type 0) (ks : List Text) → ((k : Text) → In k ks → P k) → All P ks
All-of_In P [] h = tt
All-of_In P (k ∷ ks) h = (h k (inl refl), All-of_In P ks (λ j i. h j (inr i)))

-- Every key that `list_keys` lists starts with the prefix.
pub All-list_keys {ℓ} :
    {V : Type ℓ} (prefix : Text) (m : Objects V)
    → All (λ k. starts_with k prefix ≡ true) (list_keys prefix m)
All-list_keys prefix m = All-of_In _ (list_keys prefix m) (λ k i. (In-list_keys prefix k m i).0)
