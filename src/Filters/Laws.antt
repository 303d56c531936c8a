-- ===== src/Filters/Laws.antt =====
-- Which fields the class of a query has, and when Python accepts it.
use litestar_cqrs_example.Common.{
  String, ◌≡◌, refl, sym, ap, ◌∙◌, ◌↔◌, ◌⊎◌, inl, inr, true, false, Option, none, some, List, [],
  ◌∷◌, ◌++◌, nat_eq, string_eq, Bool-cases, Option-cases, some_inj, All,
}
use mathlib.Core.Path.{subst}
use litestar_cqrs_example.Errors
use litestar_cqrs_example.Errors.{
  type_error, value_error, py, Exc, Try, Try-cases, ok_inj, bind-ok, ok, raise, require,
}
use litestar_cqrs_example.Filters.{
  Python, Field, Owned, Override, fields_of, hashed, ordered, make_filter_query,
}

abbrev HasDefault : {T V : Type 0} → Field T V → Type 0
HasDefault {V} f = (v : V) × (f.default ≡ some v)

abbrev NoDefault : {T V : Type 0} → Field T V → Type 0
NoDefault f = f.default ≡ none

-- The fields without a default, and behind them those with one.
abbrev pub Split : {T V : Type 0} → List (Field T V) → Type 0
Split {T} {V} fs =
    (xs : List (Field T V)) × (ys : List (Field T V)) × (fs ≡ xs ++ ys)
    × All NoDefault xs
    × All HasDefault ys

abbrev pub Hashed : {T V : Type 0} → Python T V → Field T V → Type 0
Hashed {V} lang f = (f.default ≡ none) ⊎ ((v : V) × (f.default ≡ some v) × (lang.has_hash v ≡ true))

module _ {T V : Type 0} (lang : Python T V) (cls : Owned T V) where
  ordered-behind : (fs : List (Field T V)) → (ordered lang cls true fs ≡ ok tt) ↔ All HasDefault fs
  unfolding ordered
  ordered-behind [] = (λ _. tt, λ _. refl)
  ordered-behind (f ∷ fs) = elim (Option-cases f.default) [
    | inl e ↦ (λ h. absurd (cc (rw e at h)), λ ((v, e'), _). absurd (cc (e, e')))
    | inr (v, e) ↦
        let (to, from) = ordered-behind fs in
        (λ h. ((v, e), to (rw e at h)), λ (_, rest). rw e (from rest))
  ]

  ordered-all : (ys : List (Field T V)) → All HasDefault ys → ordered lang cls false ys ≡ ok tt
  unfolding ordered
  ordered-all [] h = refl
  ordered-all (y ∷ ys) ((v, e), rest) = rw e ((ordered-behind ys).1 rest)

  ordered-append :
      (xs ys : List (Field T V))
      → All NoDefault xs
      → All HasDefault ys
      → ordered lang cls false (xs ++ ys) ≡ ok tt
  unfolding ordered
  ordered-append [] ys _ behind = ordered-all ys behind
  ordered-append (x ∷ xs) ys (e, before) behind = rw e (ordered-append xs ys before behind)

  halves_of : (fs : List (Field T V)) → ordered lang cls false fs ≡ ok tt → Split fs
  unfolding ordered
  halves_of [] _ = ([], [], refl, tt, tt)
  halves_of (f ∷ fs) h = elim (Option-cases f.default) [
    | inl e ↦
        let (xs, ys, same, before, behind) = halves_of fs (rw e at h) in
        (f ∷ xs, ys, ap (λ l. f ∷ l) same, (e, before), behind)
    | inr (v, e) ↦ ([], f ∷ fs, refl, tt, ((v, e), (ordered-behind fs).0 (rw e at h)))
  ]

  ordered-Split : (fs : List (Field T V)) → (ordered lang cls false fs ≡ ok tt) ↔ Split fs
  ordered-Split fs =
      (halves_of fs, λ (xs, ys, same, before, behind). rw same (ordered-append xs ys before behind))

  unhashed :
      (f : Field T V) {v : V} → f.default ≡ some v → lang.has_hash v ≡ false → ¬ Hashed lang f
  unhashed f e bad (inl absent) = absurd (cc (e, absent))
  unhashed f e bad (inr (w, e', good)) =
      let same = some_inj (sym e ∙ e') in absurd (cc (same, bad, good))

  hashed-All : (fs : List (Field T V)) → (hashed lang cls fs ≡ ok tt) ↔ All (Hashed lang) fs
  unfolding hashed
  hashed-All [] = (λ _. tt, λ _. refl)
  hashed-All (f ∷ fs) =
      let (to, from) = hashed-All fs in
      elim (Option-cases f.default) [
        | inl e ↦ (λ h. (inl e, to (rw e at h)), λ (_, rest). rw e (from rest))
        | inr (v, e) ↦ elim (Bool-cases (lang.has_hash v)) [
          | inl good ↦ (
            λ h. (inr (v, e, good), to (rw (e, good) at h)),
            λ (_, rest). rw (e, good) (from rest),
          )
          | inr bad ↦
              (λ h. absurd (cc (rw (e, bad) at h)), λ (hash, _). absurd (unhashed f e bad hash))
        ]
      ]

  -- What the two checks of `dataclasses` let pass.
  checks_passed :
      (read fs : List (Field T V))
      → Errors.◌>>◌ (hashed lang cls read) (Errors.◌>>◌ (ordered lang cls false read) (ok read))
        ≡ ok fs
      → (read ≡ fs) × All (Hashed lang) fs × Split fs
  checks_passed read fs h =
      let (_, good, rest) =
        (bind-ok (hashed lang cls read) (λ _. Errors.◌>>◌ (ordered lang cls false read) (ok read))
            fs).0
          h in
      let (_, in_order, same) = (bind-ok (ordered lang cls false read) (λ _. ok read) fs).0 rest in
      let equal = ok_inj same in
      (
        equal,
        subst (All (Hashed lang)) equal ((hashed-All read).0 good),
        subst Split equal ((ordered-Split read).0 in_order),
      )

  module _ (required : List String) (overrides : String → Option (Override V)) where
    -- The class is made exactly where each field can be read, every default has a hash, and no field
    -- without a default stands behind one with a default: its fields are the ones read, in order.
    pub make_filter_query-Split :
        (fs : List (Field T V))
        → (make_filter_query lang cls required overrides ≡ ok fs) ↔ (
            (fields_of lang cls required overrides cls.hints ≡ ok fs)
            × All (Hashed lang) fs
            × Split fs)
    unfolding make_filter_query
    make_filter_query-Split fs =
        let checks : List (Field T V) → Try (List (Field T V)) = λ read.
          Errors.◌>>◌ (hashed lang cls read)
            (Errors.◌>>◌ (ordered lang cls false read) (ok read)) in
        let (to, from) = bind-ok (fields_of lang cls required overrides cls.hints) checks fs in
        (
          λ h.
              let (read, e, rest) = to h in
              let (same, hashes, split) = checks_passed read fs rest in
              (e ∙ ap ok same, hashes, split),
          λ (e, hashes, split).
              from (fs, e, rw ((hashed-All fs).1 hashes) (rw ((ordered-Split fs).1 split) refl)),
        )
