-- ===== src/Injection/Signature/Filled.antt =====
-- src/backend/shared/di/depends.py and __init__.py: the division of the parameters that `inject` reads,
-- and what becomes of the markers.
use litestar_cqrs_example.Common.{
  ℕ, String, ◌≡◌, refl, sym, ap, ◌∙◌, ◌⊎◌, inl, inr, Bool-cases, Option, none, some, List, [], ◌∷◌,
  All, nat_beq, nat_beq_iff,
}
use mathlib.Core.Path.{subst}
use litestar_cqrs_example.Injection.{Key}
use litestar_cqrs_example.Injection.Signature.{
  Parameter, Store, Found, shared, made, fill_with, extract_depends, without_depends,
  annotations_of, remove_depends, marked_if, markers_of, read_signature,
}
use litestar_cqrs_example.Injection.Signature.Split.{
  Asks, filled, extract_depends-Extracted, Divides, read-Divides, without_depends-same,
}

-- One of the parameters gives a dependency to the marker.
pub data Offers : List Parameter → ℕ → Key → Type 0 where
  from_this :
      {p : Parameter} {ps : List Parameter} {i : ℕ} {k : Key}
      → Asks p (shared i) k
      → Offers (p ∷ ps) i k
  from_later :
      {p : Parameter} {ps : List Parameter} {i : ℕ} {k : Key} → Offers ps i k → Offers (p ∷ ps) i k

-- A marker is as it was, or it had no dependency and one of the parameters gave it one.
abbrev pub Grows : List Parameter → Store → Store → Type 0
Grows ps st st' =
    (i : ℕ) → (st' i ≡ st i) ⊎ ((st i ≡ none) × ((k : Key) × Offers ps i k × (st' i ≡ some k)))

abbrev pub key_in : Store → Found → Option Key
key_in st (shared i) = st i
key_in st (made k) = some k

abbrev pub HasKey : Store → String × Found → Type 0
HasKey st entry = (k : Key) × (key_in st entry.1 ≡ some k)

fill_with-Grows :
    (ps : List Parameter) (o : Option Key) (i : ℕ) (k : Key) (st : Store)
    → st i ≡ o
    → Offers ps i k
    → Grows ps st (fill_with o i k st)
fill_with-Grows ps (some _) i k st e offers j = inl refl
fill_with-Grows ps none i k st e offers j = elim (Bool-cases (nat_beq j i)) [
  | inl h ↦
      let same = (nat_beq_iff j i).0 h in
      inr (ap st same ∙ e, (k, subst (λ i. Offers ps i k) (sym same) offers, rw h refl))
  | inr h ↦ inl (rw h refl)
]

filled-Grows :
    (p : Parameter) (ps : List Parameter) (f : Found) (k : Key) (st : Store)
    → Asks p f k
    → Grows (p ∷ ps) st (filled f k st)
filled-Grows p ps (made _) k st asks = λ i. inl refl
filled-Grows p ps (shared i) k st asks =
    fill_with-Grows (p ∷ ps) (st i) i k st refl (from_this asks)

extract-Grows :
    (p : Parameter) (ps : List Parameter) (st : Store) → Grows (p ∷ ps) st (extract_depends p st).1
extract-Grows p ps st = elim (extract_depends-Extracted p st) [
  | inl e ↦ λ i. inl (ap (λ r. r.1 i) e)
  | inr (f, k, asks, e) ↦
      subst (Grows (p ∷ ps) st) (sym (ap (λ r. r.1) e)) (filled-Grows p ps f k st asks)
]

Grows-keeps :
    (ps : List Parameter) (st st' : Store) (i : ℕ) (k : Key)
    → Grows ps st st'
    → st i ≡ some k
    → st' i ≡ some k
Grows-keeps ps st st' i k grows h = elim (grows i) [
  | inl e ↦ e ∙ h
  | inr (e, _) ↦ absurd (cc (e, h))
]

Grows-trans : (ps : List Parameter) (a b c : Store) → Grows ps a b → Grows ps b c → Grows ps a c
Grows-trans ps a b c first second i = elim (first i) [
  | inr (e, (k, offers, e')) ↦ inr (e, (k, offers, Grows-keeps ps b c i k second e'))
  | inl e ↦ elim (second i) [
    | inl e' ↦ inl (e' ∙ e)
    | inr (e', (k, offers, e'')) ↦ inr (sym e ∙ e', (k, offers, e''))
  ]
]

Grows-later :
    (p : Parameter) (ps : List Parameter) (a b : Store) → Grows ps a b → Grows (p ∷ ps) a b
Grows-later p ps a b grows i = elim (grows i) [
  | inl e ↦ inl e
  | inr (e, (k, offers, e')) ↦ inr (e, (k, from_later offers, e'))
]

without-Grows : (ps : List Parameter) (st : Store) → Grows ps st (without_depends ps st).1
unfolding without_depends
without-Grows [] st = λ i. inl refl
without-Grows (p ∷ ps) st =
    let st' = (extract_depends p st).1 in
    Grows-trans (p ∷ ps) st st' (without_depends ps st').1 (extract-Grows p ps st)
      (Grows-later p ps st' (without_depends ps st').1 (without-Grows ps st'))

markers-Grows : (ps : List Parameter) (st : Store) → Grows ps st (markers_of ps st).1
unfolding markers_of
markers-Grows [] st = λ i. inl refl
markers-Grows (p ∷ ps) st =
    let st' = (extract_depends p st).1 in
    Grows-trans (p ∷ ps) st st' (markers_of ps st').1 (extract-Grows p ps st)
      (Grows-later p ps st' (markers_of ps st').1 (markers-Grows ps st'))

-- A marker that is found has a dependency.
fill_with-key :
    (o : Option Key) (i : ℕ) (k : Key) (st : Store)
    → st i ≡ o
    → (k' : Key) × (fill_with o i k st i ≡ some k')
fill_with-key (some k') i k st e = (k', e)
fill_with-key none i k st e = (k, rw ((nat_beq_iff i i).1 refl) refl)

filled-key : (f : Found) (k : Key) (st : Store) (name : String) → HasKey (filled f k st) (name, f)
filled-key (made k') k st name = (k', refl)
filled-key (shared i) k st name = fill_with-key (st i) i k st refl

found-key :
    (p : Parameter) (st : Store) (f : Found)
    → (extract_depends p st).0 ≡ some f
    → HasKey (extract_depends p st).1 (p.name, f)
found-key p st f h = elim (extract_depends-Extracted p st) [
  | inl e ↦ absurd (cc (h, ap (λ r. r.0) e))
  | inr (f', k, asks, e) ↦
      let same : f' ≡ f = cc (h, ap (λ r. r.0) e) in
      subst (λ f. HasKey (extract_depends p st).1 (p.name, f)) same
        (subst (λ st'. HasKey st' (p.name, f')) (sym (ap (λ r. r.1) e)) (filled-key f' k st p.name))
]

HasKey-later :
    (ps : List Parameter) (a b : Store) (name : String) (f : Found)
    → Grows ps a b
    → HasKey a (name, f)
    → HasKey b (name, f)
HasKey-later ps a b name (made k) grows (k', e) = (k', e)
HasKey-later ps a b name (shared i) grows (k, e) = (k, Grows-keeps ps a b i k grows e)

marked-HasKey :
    (st : Store) (o : Option Found) (name : String) (rest : List (String × Found))
    → ((f : Found) → o ≡ some f → HasKey st (name, f))
    → All (HasKey st) rest
    → All (HasKey st) (marked_if o name rest)
marked-HasKey st none name rest h all = all
marked-HasKey st (some f) name rest h all = (h f refl, all)

markers-HasKey :
    (ps : List Parameter) (st : Store) → All (HasKey (markers_of ps st).1) (markers_of ps st).0
unfolding markers_of
markers-HasKey [] st = tt
markers-HasKey (p ∷ ps) st =
    let st' = (extract_depends p st).1 in
    marked-HasKey (markers_of ps st').1 (extract_depends p st).0 p.name (markers_of ps st').0
      (λ f e.
        HasKey-later ps st' (markers_of ps st').1 p.name f (markers-Grows ps st')
          (found-key p st f e))
      (markers-HasKey ps st')

-- The parameters of a function are divided, in their order, into those of the new signature, which
-- ask for no marker, and those that the wrapper fills by their names. Each marker that it fills them
-- with has a dependency, and a marker is changed only where it had none, to what one of the
-- parameters gives it.
pub read_signature-Divides :
    (ps : List Parameter) (st : Store)
    → let read = read_signature ps st in
      Divides ps read.parameters read.cache
      × (read.annotations ≡ annotations_of read.parameters)
      × All (HasKey read.store) read.cache
      × Grows ps st read.store
unfolding read_signature remove_depends
read_signature-Divides ps st =
    let st' = (without_depends ps st).1 in
    let st'' = (without_depends ps st').1 in
    (
      read-Divides ps st' st'',
      ap annotations_of (without_depends-same ps st st'),
      markers-HasKey ps st'',
      Grows-trans ps st st'' (markers_of ps st'').1
          (Grows-trans ps st st' st'' (without-Grows ps st) (without-Grows ps st'))
          (markers-Grows ps st''),
    )
