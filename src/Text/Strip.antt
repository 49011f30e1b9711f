-- ===== src/Text/Strip.antt =====
-- Laws of `strip`.
use Prim.Native.Char.{Char, code}
use Prim.Native.String.{[], ◌∷◌, ◌++◌}
use text.Mathlib.TextLemmas.{cons≢nil, nil-append, cons-append}
use vector_catalog_service.Prelude.{
  String, Bool, true, false, ◌≡◌, refl, sym, ◌∙◌, ◌&&◌, arith, ◌==◌, eq_iff, Bool-cases, inl, inr,
}
use mathlib.Core.Path.{subst}
use vector_catalog_service.Text.{is_space, lstrip, rstrip, rstrip_step, strip}

-- The text holds white space alone.
abbrev pub all_space : String → Bool
all_space [] = true
all_space (c ∷ s) = is_space (code c) && all_space s

abbrev pub is_empty : String → Bool
is_empty [] = true
is_empty (c ∷ s) = false

rstrip_step-is_empty :
    (r : String) (b : Bool) (c : Char) → is_empty (rstrip_step r b (c ∷ r)) ≡ (b && is_empty r)
rstrip_step-is_empty [] true c = refl
rstrip_step-is_empty [] false c = refl
rstrip_step-is_empty (d ∷ r) true c = refl
rstrip_step-is_empty (d ∷ r) false c = refl

is_empty-rstrip : (s : String) → is_empty (rstrip s) ≡ all_space s
unfolding rstrip
is_empty-rstrip [] = refl
is_empty-rstrip (c ∷ s) =
    ground (arith, rstrip_step-is_empty (rstrip s) (is_space (code c)) c, is_empty-rstrip s)

all_space-lstrip : (s : String) → all_space (lstrip s) ≡ all_space s
unfolding lstrip
all_space-lstrip [] = refl
all_space-lstrip (c ∷ s) = ground (arith, all_space-lstrip s)

-- Nothing is left of a text exactly when it holds white space alone.
pub is_empty-strip : (s : String) → is_empty (strip s) ≡ all_space s
unfolding strip
is_empty-strip s = ground (arith, is_empty-rstrip (lstrip s), all_space-lstrip s)

-- The text begins with white space.
abbrev pub head_space : String → Bool
head_space [] = false
head_space (c ∷ s) = is_space (code c)

head_space-lstrip : (s : String) → head_space (lstrip s) ≡ false
unfolding lstrip
head_space-lstrip [] = refl
head_space-lstrip (c ∷ s) = ground (arith, head_space-lstrip s)

lstrip_id : (s : String) → head_space s ≡ false → lstrip s ≡ s
unfolding lstrip
lstrip_id [] h = refl
lstrip_id (c ∷ s) h = ground arith

rstrip_step-head :
    (r : String) (c : Char) → is_space (code c) ≡ false → rstrip_step r false (c ∷ r) ≡ c ∷ r
rstrip_step-head [] c h = refl
rstrip_step-head (d ∷ r) c h = refl

head_space-rstrip : (s : String) → head_space s ≡ false → head_space (rstrip s) ≡ false
unfolding rstrip
head_space-rstrip [] h = refl
head_space-rstrip (c ∷ s) h = rw h (rw (rstrip_step-head (rstrip s) c h) h)

rstrip_step-cons :
    (d : Char) (r : String) (b : Bool) (full : String) → rstrip_step (d ∷ r) b full ≡ full
rstrip_step-cons d r true full = refl
rstrip_step-cons d r false full = refl

rstrip-step :
    (r : String) (c : Char)
    → rstrip r ≡ r
    → let t = rstrip_step r (is_space (code c)) (c ∷ r) in rstrip t ≡ t
unfolding rstrip
rstrip-step [] c h = elim (Bool-cases (is_space (code c))) [
  | inl space ↦ rw (space, rstrip)
  | inr mark ↦ rw (mark, rstrip) (rw mark)
]
rstrip-step (d ∷ r) c h = rw (rstrip_step-cons d r (is_space (code c)) (c ∷ d ∷ r)) (
    subst (λ t. rstrip_step t (is_space (code c)) (c ∷ t) ≡ c ∷ d ∷ r) (sym h)
      (rstrip_step-cons d r (is_space (code c)) (c ∷ d ∷ r)))

rstrip-rstrip : (s : String) → rstrip (rstrip s) ≡ rstrip s
unfolding rstrip
rstrip-rstrip [] = refl
rstrip-rstrip (c ∷ s) = rstrip-step (rstrip s) c (rstrip-rstrip s)

-- Stripping again changes nothing.
pub strip-strip : (s : String) → strip (strip s) ≡ strip s
unfolding strip
strip-strip s =
    rw (lstrip_id (rstrip (lstrip s)) (head_space-rstrip (lstrip s) (head_space-lstrip s)))
      (rstrip-rstrip (lstrip s))

pub ==-nil : (s : String) → (s == "") ≡ is_empty s
==-nil [] = refl
==-nil (c ∷ s) = elim (Bool-cases ((c ∷ s) == "")) [
  | inl same ↦ absurd (cons≢nil ((eq_iff (c ∷ s) "").0 same))
  | inr differ ↦ differ
]

-- The test `not s.strip()` of the source.
pub strip-==-nil : (s : String) → (strip s == "") ≡ all_space s
strip-==-nil s = ==-nil (strip s) ∙ is_empty-strip s

pub all_space-append : (s t : String) → all_space (s ++ t) ≡ (all_space s && all_space t)
all_space-append [] t = rw nil-append
all_space-append (c ∷ s) t = rw cons-append (ground (arith, all_space-append s t))
