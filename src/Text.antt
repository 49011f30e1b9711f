-- ===== src/Text.antt =====
-- The methods of Python's `str` that the program calls: `strip`, `endswith`, `replace` with an
-- empty text, and the slice `text[:n]`. A text is a list of code points.
pub mod Strip
pub mod Stem
use Prim.Native.Char.{code}
use Prim.Native.String.{[], ◌∷◌, ◌++◌}
use vector_catalog_service.Prelude.{
  ℕ, zero, suc, ◌-◌, String, Bool, true, false, ◌&&◌, ◌||◌, ◌==◌, eqb, leb, if◌then◌else◌,
}

-- `str.isspace` of one character, by code point
unfoldable pub is_space : ℕ → Bool
is_space c =
    leb 9 c && leb c 13
    || leb 28 c && leb c 32
    || eqb c 0x85
    || eqb c 0xa0
    || eqb c 0x1680
    || leb 0x2000 c && leb c 0x200a
    || eqb c 0x2028
    || eqb c 0x2029
    || eqb c 0x202f
    || eqb c 0x205f
    || eqb c 0x3000

unfoldable pub lstrip : String → String
lstrip [] = []
lstrip (c ∷ s) = if is_space (code c) then lstrip s else c ∷ s

-- one character in front of a text that is stripped on the right already
abbrev pub rstrip_step : String → Bool → String → String
rstrip_step [] true full = []
rstrip_step _ _ full = full

unfoldable pub rstrip : String → String
rstrip [] = []
rstrip (c ∷ s) = let r = rstrip s in rstrip_step r (is_space (code c)) (c ∷ r)

-- `s.strip()`
unfoldable pub strip : String → String
unfolding lstrip rstrip
strip s = rstrip (lstrip s)

-- `len(s)`
abbrev pub len : String → ℕ
len [] = 0
len (c ∷ s) = suc (len s)

-- `s[:n]`
unfoldable pub truncate : ℕ → String → String
truncate zero s = []
truncate (suc n) [] = []
truncate (suc n) (c ∷ s) = c ∷ truncate n s

-- `s.startswith(p)`, as `is_prefix p s`
unfoldable pub is_prefix : String → String → Bool
is_prefix [] s = true
is_prefix (c ∷ p) [] = false
is_prefix (c ∷ p) (d ∷ s) = eqb (code c) (code d) && is_prefix p s

-- `s.endswith(p)`
unfoldable pub ends_with : String → String → Bool
ends_with p [] = p == []
ends_with p (c ∷ s) = p == (c ∷ s) || ends_with p s

-- `s.replace(p, '')` for a text `p` that is not empty, after `k` characters of a match that are
-- still to be dropped: from the left, without overlaps.
unfoldable pub remove_from : ℕ → String → String → String
unfolding is_prefix
remove_from k p [] = []
remove_from (suc k) p (c ∷ s) = remove_from k p s
remove_from zero p (c ∷ s) = elim (is_prefix p (c ∷ s)) [
  | true ↦ remove_from (len p - 1) p s
  | false ↦ c ∷ remove_from zero p s
]

unfoldable pub remove : String → String → String
unfolding remove_from
remove p s = remove_from zero p s

-- `os.path.join(dir, name)` on POSIX
unfoldable pub join_path : String → String → String
unfolding is_prefix ends_with
join_path dir name =
    if is_prefix "/" name
    then name
    else if dir == "" || ends_with "/" dir
    then dir ++ name
    else dir ++ ("/" ++ name)

-- the text up to its last slash, that slash included
abbrev pub head_of : String → String
head_of [] = []
head_of (c ∷ s) =
    let h = head_of s in
    if h == "" && (if eqb (code c) b'/' then false else true) then [] else c ∷ h

abbrev pub all_slashes : String → Bool
all_slashes [] = true
all_slashes (c ∷ s) = eqb (code c) b'/' && all_slashes s

-- `rstrip('/')`
abbrev pub rstrip_slashes : String → String
rstrip_slashes [] = []
rstrip_slashes (c ∷ s) = let r = rstrip_slashes s in rstrip_step r (eqb (code c) b'/') (c ∷ r)

-- `os.path.dirname(path)` on POSIX
unfoldable pub dirname : String → String
dirname path = let head = head_of path in if all_slashes head then head else rstrip_slashes head
