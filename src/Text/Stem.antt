-- ===== src/Text/Stem.antt =====
-- Laws of `endswith` and `replace` at a file name that is a stem and a suffix.
use Prim.Native.Char.{Char}
use Prim.Native.String.{[], ◌∷◌, ◌++◌}
use text.Mathlib.TextLemmas.{nil-append, cons-append}
use vector_catalog_service.Prelude.{
  ℕ, zero, suc, ◌-◌, String, true, false, ◌≡◌, refl, ap, ◌∙◌, arith, eq_refl,
}
use vector_catalog_service.Text.{len, is_prefix, ends_with, remove_from, remove}

is_prefix_self : (p : String) → is_prefix p p ≡ true
unfolding is_prefix
is_prefix_self [] = refl
is_prefix_self (c ∷ p) = ground (arith, is_prefix_self p)

ends_with_self : (p : String) → ends_with p p ≡ true
unfolding ends_with
ends_with_self [] = refl
ends_with_self (c ∷ p) = rw eq_refl

pub ends_with-append : (s p : String) → ends_with p (s ++ p) ≡ true
unfolding ends_with
ends_with-append [] p = rw nil-append (ends_with_self p)
ends_with-append (c ∷ s) p = rw cons-append (ground (arith, ends_with-append s p))

remove_from-len : (p s : String) → remove_from (len s) p s ≡ []
unfolding remove_from
remove_from-len p [] = refl
remove_from-len p (c ∷ s) = remove_from-len p s

remove_from_hit :
    (p : String) (c : Char) (s : String)
    → is_prefix p (c ∷ s) ≡ true
    → remove_from zero p (c ∷ s) ≡ remove_from (len p - 1) p s
unfolding remove_from
remove_from_hit p c s h = rw (h, remove_from)

remove_from_miss :
    (p : String) (c : Char) (s : String)
    → is_prefix p (c ∷ s) ≡ false
    → remove_from zero p (c ∷ s) ≡ c ∷ remove_from zero p s
unfolding remove_from
remove_from_miss p c s h = rw (h, remove_from)

remove_from_self : (c : Char) (p : String) → remove_from zero (c ∷ p) (c ∷ p) ≡ []
remove_from_self c p =
    remove_from_hit (c ∷ p) c p (is_prefix_self (c ∷ p))
    ∙ rw (suc-sub-one (len p)) (remove_from-len (c ∷ p) p)
  where
    suc-sub-one : (n : ℕ) → suc n - 1 ≡ n
    suc-sub-one n = omega arith

-- Reading `s` before `p` from the left, no copy of `p` begins inside `s`.
abbrev pub NoCopy : String → String → Type 0
NoCopy p [] = Unit
NoCopy p (c ∷ s) = (is_prefix p ((c ∷ s) ++ p) ≡ false) × NoCopy p s

remove_from-append :
    (c : Char) (p s : String) → NoCopy (c ∷ p) s → remove_from zero (c ∷ p) (s ++ (c ∷ p)) ≡ s
remove_from-append c p [] h = rw nil-append (remove_from_self c p)
remove_from-append c p (d ∷ s) h = rw cons-append (
    remove_from_miss (c ∷ p) d (s ++ (c ∷ p)) (rw cons-append at (h.0))
    ∙ ap (λ t. d ∷ t) (remove_from-append c p s h.1))

pub remove-append : (c : Char) (p s : String) → NoCopy (c ∷ p) s → remove (c ∷ p) (s ++ (c ∷ p)) ≡ s
unfolding remove
remove-append c p s h = remove_from-append c p s h
