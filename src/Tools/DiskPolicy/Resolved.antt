-- ===== src/Tools/DiskPolicy/Resolved.antt =====
-- The normal form of a path, `normalize_path` of tools/disk_policy.py, climbs nowhere.
use open_devops_agent.Prelude.{
  and-true, not-true, ℕ, not, ◌&&◌, ◌==◌, Bool, filter_by, if◌then◌else◌, ◌≡◌, refl, ◌⊎◌, inl, inr,
  true, false, List, [], ◌∷◌, ◌++◌, arith, All, Bool-cases,
}
use open_devops_agent.Text.{
  Text, codes, text_eq, starts_with, strip, is_empty, split_on, split_step, join_with,
}
use open_devops_agent.Tools.DiskPolicy.Paths.{
  normalize_path, path_text, pop_last, resolve_dots, resolved_parts, path_root, path_parts,
}

abbrev HasNoSlash : Text → Type 0
HasNoSlash s = All (λ c. (c == b'/') ≡ false) s

-- The name of an entry of a folder: not empty, not `.`, and without a slash.
abbrev pub IsEntry : Text → Type 0
IsEntry part = (is_empty part ≡ false) × ((text_eq part (codes ".") ≡ false) × HasNoSlash part)

-- An entry that is not `..` either.
abbrev pub IsPlain : Text → Type 0
IsPlain part = IsEntry part × (text_eq part (codes "..") ≡ false)

All-split_step :
    (b : Bool) (d : ℕ) (parts : List Text)
    → (d == b'/') ≡ b
    → All HasNoSlash parts
    → All HasNoSlash (split_step b d parts)
All-split_step true d parts e h = (tt, h)
All-split_step false d [] e h = ((e, tt), tt)
All-split_step false d (p ∷ ps) e h = ((e, h.0), h.1)

All-split_on : (s : Text) → All HasNoSlash (split_on b'/' s)
unfolding split_on
All-split_on [] = (tt, tt)
All-split_on (d ∷ s) = All-split_step (d == b'/') d (split_on b'/' s) refl (All-split_on s)

kept_one :
    (p : Text) (rest : List Text) (keep : Bool)
    → (keep ≡ true → IsEntry p)
    → All IsEntry rest
    → All IsEntry (elim keep [ true ↦ p ∷ rest | false ↦ rest ])
kept_one p rest true h more = (h refl, more)
kept_one p rest false h more = more

All-path_parts :
    (parts : List Text)
    → All HasNoSlash parts
    → All IsEntry (filter_by (λ p. not (is_empty p) && not (text_eq p (codes "."))) parts)
unfolding filter_by
All-path_parts [] h = tt
All-path_parts (p ∷ ps) h =
    kept_one p _ (not (is_empty p) && not (text_eq p (codes ".")))
      (λ e.
        let (filled, other) = and-true (not (is_empty p)) _ e in
        (not-true (is_empty p) filled, (not-true (text_eq p (codes ".")) other, h.0)))
      (All-path_parts ps h.1)

-- The root, or an entry.
abbrev IsFirst : Text → Type 0
IsFirst p = ((p ≡ codes "/") ⊎ (p ≡ codes "//")) ⊎ IsPlain p

abbrev IsPath : List Text → Type 0
IsPath [] = Unit
IsPath (p ∷ ps) = IsFirst p × All IsPlain ps

All-pop_last : (kept : List Text) → All IsPlain kept → All IsPlain (pop_last kept)
All-pop_last [] h = tt
All-pop_last (p ∷ []) h = tt
All-pop_last (p ∷ q ∷ ps) h = (h.0, All-pop_last (q ∷ ps) h.1)

IsPath-pop_last : (kept : List Text) → IsPath kept → IsPath (pop_last kept)
IsPath-pop_last [] h = tt
IsPath-pop_last (p ∷ []) h = tt
IsPath-pop_last (p ∷ q ∷ ps) h = (h.0, All-pop_last (q ∷ ps) h.1)

All-snoc :
    (kept : List Text) (part : Text)
    → All IsPlain kept
    → IsPlain part
    → All IsPlain (kept ++ part ∷ [])
All-snoc [] part h n = (n, tt)
All-snoc (p ∷ kept) part h n = (h.0, All-snoc kept part h.1 n)

IsPath-snoc :
    (kept : List Text) (part : Text) → IsPath kept → IsPlain part → IsPath (kept ++ part ∷ [])
IsPath-snoc [] part h n = (inr n, tt)
IsPath-snoc (p ∷ kept) part h n = (h.0, All-snoc kept part h.1 n)

IsPath-resolve_dots :
    (kept parts : List Text) → IsPath kept → All IsEntry parts → IsPath (resolve_dots kept parts)
unfolding resolve_dots
IsPath-resolve_dots kept [] h e = h
IsPath-resolve_dots kept (part ∷ parts) h (entry, e) =
    elim (Bool-cases (text_eq part (codes ".."))) [
      | inl up ↦ rw up (IsPath-resolve_dots (pop_last kept) parts (IsPath-pop_last kept h) e)
      | inr name ↦
          rw (name, entry.1.0)
            (IsPath-resolve_dots (kept ++ part ∷ []) parts (IsPath-snoc kept part h (entry, name))
              e)
    ]

IsPath-resolved_parts : (path : Text) → IsPath (resolve_dots [] (resolved_parts path))
unfolding resolved_parts path_root path_parts resolve_dots text_eq
IsPath-resolved_parts path =
    by_root (not (starts_with path (codes "/")))
      (starts_with path (codes "//") && not (starts_with path (codes "///")))
  where
    rest : List Text
    rest = path_parts path

    entries : All IsEntry (path_parts path)
    entries = All-path_parts (split_on b'/' path) (All-split_on path)

    by_root :
        (relative double : Bool)
        → IsPath (
            resolve_dots [] (
              (if is_empty (if relative then [] else if double then codes "//" else codes "/")
                then codes "/"
                else if relative
                then []
                else if double
                then codes "//"
                else codes "/")
              ∷ path_parts path))
    by_root true double = IsPath-resolve_dots (codes "/" ∷ []) _ (inl (inl refl), tt) entries
    by_root false true = IsPath-resolve_dots (codes "//" ∷ []) _ (inl (inr refl), tt) entries
    by_root false false = IsPath-resolve_dots (codes "/" ∷ []) _ (inl (inl refl), tt) entries

-- The text of a path that climbs nowhere: it is empty, or it is a root followed by names of
-- entries, with a slash between one and the next, and no name is empty, `.` or `..` or has a slash
-- in it. The root is `/`, or three slashes.
abbrev pub IsResolved : Text → Type 0
IsResolved path =
    (path ≡ [])
    ⊎ ((parts : List Text) × All IsPlain parts
        × ((path ≡ b'/' ∷ join_with (codes "/") parts)
            ⊎ (path ≡ codes "///" ++ join_with (codes "/") parts)))

no_slash_first :
    (s : Text) → HasNoSlash s → (text_eq s (codes "/") ≡ false) × (text_eq s (codes "//") ≡ false)
unfolding text_eq
no_slash_first [] h = (refl, refl)
no_slash_first (c ∷ s) h = (ground (arith, h.0), ground (arith, h.0))

path_text-IsResolved : (parts : List Text) → IsPath parts → IsResolved (path_text parts)
unfolding text_eq join_with
path_text-IsResolved [] h = inr ([], tt, inl refl)
path_text-IsResolved (root ∷ parts) (inl (inl e), h) = inr (parts, h, inl (rw e refl))
path_text-IsResolved (root ∷ parts) (inl (inr e), h) = inr (parts, h, inr (rw e refl))
path_text-IsResolved (root ∷ parts) (inr plain, h) =
    let (single, double) = no_slash_first root plain.0.1.1 in
    inr (root ∷ parts, (plain, h), inl (rw (single, double) refl))

-- Whatever the path, its normal form climbs nowhere.
pub normalize_path-IsResolved : (path : Text) → IsResolved (normalize_path path)
unfolding normalize_path
normalize_path-IsResolved path = elim (Bool-cases (is_empty (strip path))) [
  | inl blank ↦ rw blank (inl refl)
  | inr more ↦ rw more (path_text-IsResolved _ (IsPath-resolved_parts (strip path)))
]
