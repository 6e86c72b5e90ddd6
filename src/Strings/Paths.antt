-- ===== src/Strings/Paths.antt =====
-- What the program uses of Go's package path, and of strings for paths, over byte strings.
use go_contactd.Prelude.{
  ℕ, ◌==◌, ◌||◌, Bytes, Bool, true, false, List, [], ◌∷◌, ◌++◌, lit, bytes_eq, if◌then◌else◌,
  any_row,
}
use go_contactd.Strings.{split, trim_front, trim_back}

abbrev pub slash : ℕ
slash = 47

-- strings.Trim(s, "/")
unfoldable pub trim_slashes : Bytes → Bytes
trim_slashes s = trim_back ((slash ∷ []) ∷ []) (trim_front ((slash ∷ []) ∷ []) 0 s)

-- strings.Contains(s, …), for a string of one byte.
abbrev pub contains_byte : ℕ → Bytes → Bool
contains_byte c s = any_row (λ x. x == c) s

abbrev pub is_dot : Bytes → Bool
is_dot s = bytes_eq s (lit ".")

abbrev pub is_dot_dot : Bytes → Bool
is_dot_dot s = bytes_eq s (lit "..")

abbrev pub is_empty : Bytes → Bool
is_empty [] = true
is_empty (c ∷ s) = false

abbrev pub parent : List Bytes → List Bytes
parent [] = []
parent (x ∷ xs) = xs

-- The elements that path.Clean keeps of a rooted path, the last one first.
unfoldable pub clean_elements : (kept : List Bytes) → List Bytes → List Bytes
clean_elements kept [] = kept
clean_elements kept (s ∷ rest) =
    clean_elements
      (if is_empty s || is_dot s then kept else if is_dot_dot s then parent kept else s ∷ kept) rest

-- Elements, the last one first, each behind a slash, in front of `acc`.
unfoldable pub join_elements : List Bytes → (acc : Bytes) → Bytes
join_elements [] acc = acc
join_elements (s ∷ kept) acc = join_elements kept (slash ∷ (s ++ acc))

abbrev pub rooted : Bytes → Bytes
rooted [] = slash ∷ []
rooted (c ∷ s) = c ∷ s

-- path.Clean("/" + s)
unfoldable pub path_clean : Bytes → Bytes
path_clean s = rooted (join_elements (clean_elements [] (split s slash)) [])

-- The elements of a path as the handlers take them apart:
-- strings.Split(strings.Trim(path.Clean("/" + s), "/"), "/")
unfoldable pub path_elements : Bytes → List Bytes
path_elements s = split (trim_slashes (path_clean s)) slash
