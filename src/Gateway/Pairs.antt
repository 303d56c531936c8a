-- ===== src/Gateway/Pairs.antt =====
-- Rows that are a pair of a role and a user, before and after one is stored or deleted.
use litestar_cqrs_example.Common.{
  String, ◌≡◌, refl, sym, ap, ◌∙◌, inl, inr, Bool, true, false, not, ◌&&◌, ◌||◌, List, [], ◌∷◌,
  ◌++◌, arith, eq_iff, ◌==◌, beq_self, nat_eq, string_eq, Bool-cases, keep_if, any,
}
use litestar_cqrs_example.Gateway.{Cell, text, number, flag, null, same_cell, Cells, Row}
use litestar_cqrs_example.Gateway.Tables.{matches, Holds}

-- `RoleUserData`
abbrev pub pair : (role_id user_id : String) → Cells
pair role_id user_id = ("role_id", text role_id) ∷ ("user_id", text user_id) ∷ []

abbrev pub is_pair : (r u r' u' : String) → Bool
is_pair r u r' u' = r == r' && u == u'

-- A cell that SQL finds equal to a text is the text.
same_cell-text : (a : Cell) (t : String) → same_cell a (text t) ≡ true → a ≡ text t
same_cell-text (text s) t h = ap text ((eq_iff s t).0 h)
same_cell-text (number n) t h = absurd (cc h)
same_cell-text (flag true) t h = absurd (cc h)
same_cell-text (flag false) t h = absurd (cc h)
same_cell-text null t h = absurd (cc h)

matches-pair :
    (r u : String) (row : Row)
    → matches (pair r u) row ≡ true
    → (row "role_id" ≡ text r) × (row "user_id" ≡ text u)
matches-pair r u row h = elim (Bool-cases (same_cell (row "role_id") (text r))) [
  | inr other ↦ absurd (cc (rw other at h))
  | inl same ↦ elim (Bool-cases (same_cell (row "user_id") (text u))) [
    | inr other ↦ absurd (cc (rw (same, other) at h))
    | inl same' ↦ (same_cell-text _ r same, same_cell-text _ u same')
  ]
]

any-rest : (p : Row → Bool) (rows : List Row) → any p (keep_if (λ row. not (p row)) rows) ≡ false
any-rest p [] = refl
any-rest p (x ∷ rows) = ground (arith, any-rest p rows)

any-others :
    (p q : Row → Bool) (rows : List Row)
    → ((row : Row) → (p row && q row) ≡ false)
    → any q (keep_if (λ row. not (p row)) rows) ≡ any q rows
any-others p q [] apart = refl
any-others p q (x ∷ rows) apart = ground (arith, apart x, any-others p q rows apart)

text_inj : {s t : String} → text s ≡ text t → s ≡ t
text_inj h = cc h

is_pair_of : (r u r' u' : String) → r ≡ r' → u ≡ u' → is_pair r u r' u' ≡ true
is_pair_of r u r' u' role user = rw (role, user) (rw (beq_self r', beq_self u') refl)

pub is_pair_eq : (r u r' u' : String) → is_pair r u r' u' ≡ true → (r ≡ r') × (u ≡ u')
is_pair_eq r u r' u' h = elim (Bool-cases (r == r')) [
  | inr other ↦ absurd (cc (rw other at h))
  | inl role ↦ ((eq_iff r r').0 role, (eq_iff u u').0 (rw role at h))
]

-- Membership after a row is stored, or after rows are deleted.
module _ (r u r' u' : String) where
  Holds-matches : (row : Row) → Holds (pair r u) row → matches (pair r' u') row ≡ is_pair r u r' u'
  Holds-matches row (e, (e', _)) = rw (e, e') (ground arith)

  pub any-stored :
      (rows : List Row) (row : Row)
      → Holds (pair r u) row
      → any (matches (pair r' u')) (rows ++ row ∷ [])
        ≡ (is_pair r u r' u' || any (matches (pair r' u')) rows)
  any-stored [] row holds = rw (Holds-matches row holds)
  any-stored (x ∷ rows) row holds = ground (arith, any-stored rows row holds)

  apart :
      is_pair r u r' u' ≡ false
      → (row : Row) → (matches (pair r u) row && matches (pair r' u') row) ≡ false
  apart other row = elim (Bool-cases (matches (pair r u) row)) [
    | inr no_match ↦ rw no_match refl
    | inl match ↦ elim (Bool-cases (matches (pair r' u') row)) [
      | inr no_match ↦ rw (match, no_match) refl
      | inl match' ↦
          let (role, user) = matches-pair r u row match in
          let (role', user') = matches-pair r' u' row match' in
          absurd (
            cc (
              other,
              is_pair_of r u r' u' (text_inj (sym role ∙ role')) (text_inj (sym user ∙ user')),
            ))
    ]
  ]

  pub any-deleted :
      (rows : List Row)
      → any (matches (pair r' u')) (keep_if (λ row. not (matches (pair r u) row)) rows)
        ≡ (not (is_pair r u r' u') && any (matches (pair r' u')) rows)
  any-deleted rows = elim (Bool-cases (is_pair r u r' u')) [
    | inr other ↦
        rw other (any-others (matches (pair r u)) (matches (pair r' u')) rows (apart other))
    | inl same ↦
        let (role, user) = is_pair_eq r u r' u' same in
        rw same (rw (sym role, sym user) (any-rest (matches (pair r u)) rows))
  ]
