-- ===== src/Prelude/Dict.antt =====
-- A Python dict with text keys, in insertion order: an assignment to a key that is there keeps
-- its place, any other goes to the end.
use Prim.Native.String.{String}
use mathlib.Core.Path.{sym, subst, subst₂, ◌≡◌, refl}
use mathlib.Core.Logic.{inl, inr}
use mathlib.Core.Bool.{Bool, false, ◌||◌}
use mathlib.Core.Option.{Option, none, some}
use mathlib.Core.List.{List, [], ◌∷◌}
use native.Mathlib.Omega.{arith}
use text.Mathlib.Text.{◌==◌}
use text.Mathlib.TextEquality.{eq_iff}
use vector_catalog_service.Prelude.Tests.{Bool-cases, if◌then◌else◌}
use vector_catalog_service.Prelude.Lists.{All}

abbrev pub Dict {ℓ} : Type ℓ → Type ℓ
Dict V = List (String × V)

module _ {ℓ} {V : Type ℓ} where
  unfoldable pub get : String → Dict V → Option V
  get k [] = none
  get k ((j, v) ∷ d) = if j == k then some v else get k d

  -- `d[k] = v`
  unfoldable pub put : String → V → Dict V → Dict V
  put k v [] = (k, v) ∷ []
  put k v ((j, w) ∷ d) = if j == k then (j, v) ∷ d else (j, w) ∷ put k v d

  abbrev pub keys : Dict V → List String
  keys [] = []
  keys ((k, v) ∷ d) = k ∷ keys d

  pub get-put :
      (k j : String) (v : V) (d : Dict V) → get j (put k v d) ≡ (if k == j then some v else get j d)
  unfolding get put
  get-put k j v [] = refl
  get-put k j v ((i, w) ∷ d) = ground (arith, eq_iff k j, eq_iff i k, eq_iff i j, get-put k j v d)

  -- Assigning to a key that is there changes neither the keys nor their order.
  pub keys-put : (k : String) (v w : V) (d : Dict V) → get k d ≡ some w → keys (put k v d) ≡ keys d
  unfolding get put
  keys-put k v w [] h = ground arith
  keys-put k v w ((i, u) ∷ d) h = ground (arith, keys-put k v w d)

module _ {ℓ κ} {V : Type ℓ} (P : String × V → Type κ) where
  pub All-get : (k : String) (v : V) (d : Dict V) → All P d → get k d ≡ some v → P (k, v)
  unfolding get
  All-get k v [] h e = cc
  All-get k v ((j, w) ∷ d) h e = elim (Bool-cases (j == k)) [
    | inl same ↦
        let found : w ≡ v = ground arith in subst₂ (λ a b. P (a, b)) ((eq_iff j k).0 same) found h.0
    | inr differ ↦ let later : get k d ≡ some v = ground arith in All-get k v d h.1 later
  ]

  pub All-put : (k : String) (v : V) (d : Dict V) → All P d → P (k, v) → All P (put k v d)
  unfolding put
  All-put k v [] h p = (p, tt)
  All-put k v ((j, w) ∷ d) h p = elim (Bool-cases (j == k)) [
    | inl same ↦ rw same (subst (λ a. P (a, v)) (sym ((eq_iff j k).0 same)) p, h.1)
    | inr differ ↦ rw differ (h.0, All-put k v d h.1 p)
  ]

-- Assigning what is there already changes nothing.
pub put-get {ℓ} : {V : Type ℓ} (k : String) (v : V) (d : Dict V) → get k d ≡ some v → put k v d ≡ d
unfolding get put
put-get k v [] h = ground arith
put-get k v ((j, w) ∷ d) h = ground (arith, put-get k v d)

-- No key of a dict stands in it twice.
abbrev pub IsUnique : List String → Type 0
IsUnique [] = Unit
IsUnique (k ∷ ks) = All (λ j. (j == k) ≡ false) ks × IsUnique ks

keys_differ_put :
    {V : Type 0} (k j : String) (v : V) (d : Dict V)
    → (k == j) ≡ false
    → All (λ i. (i == j) ≡ false) (keys d)
    → All (λ i. (i == j) ≡ false) (keys (put k v d))
unfolding put
keys_differ_put k j v [] h differ = (h, tt)
keys_differ_put k j v ((i, w) ∷ d) h differ = elim (Bool-cases (i == k)) [
  | inl same ↦ rw same (differ.0, differ.1)
  | inr other ↦ rw other (differ.0, keys_differ_put k j v d h differ.1)
]

pub put-IsUnique :
    {V : Type 0} (k : String) (v : V) (d : Dict V) → IsUnique (keys d) → IsUnique (keys (put k v d))
unfolding put
put-IsUnique k v [] h = (tt, tt)
put-IsUnique k v ((i, w) ∷ d) h = elim (Bool-cases (i == k)) [
  | inl same ↦ rw same h
  | inr other ↦
      let back : (k == i) ≡ false = ground (arith, eq_iff k i, eq_iff i k) in
      rw other (keys_differ_put k i v d back h.0, put-IsUnique k v d h.1)
]

-- One of the names is `name`.
abbrev pub has : String → List String → Bool
has name [] = false
has name (c ∷ cs) = (c == name) || has name cs
