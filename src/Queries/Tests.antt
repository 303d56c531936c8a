-- ===== src/Queries/Tests.antt =====
-- A table of five rows, and the theorems at it.
use litestar_cqrs_example.Common.{
  ℕ, zero, suc, ◌-◌, ◌%◌, String, ◌≡◌, refl, ap, ◌∙◌, Bool, true, false, none, some, List, [], ◌∷◌,
  arith, nat_beq, nat_eq, string_eq, length, keep_if, str_truthy, if◌then◌else◌,
}
use Prim.Native.String.{char_at}
use litestar_cqrs_example.Errors.{py, value_error, type_error, Try, ok, raise}
use litestar_cqrs_example.Queries.{
  Statement, plain, joined, Database, Cursors, GetManyByCursor, GetManyByOffset, perform_cursor,
}
use litestar_cqrs_example.Queries.Table.{holds, Ordered, selected, TableLaws}
use litestar_cqrs_example.Queries.Traversal.{traverse}
use litestar_cqrs_example.Queries.Codec.{
  uuid_cursor, Value, uuid_value, int_value, text_value, other_value, CursorLibraries, LibraryLaws,
  cursor_encoder, cursor_decoder, cursors_of, traverse-cursors_of,
}
use Prim.Native.Char.{code}

abbrev table : Bool → List ℕ
table true = 2 ∷ 3 ∷ 5 ∷ 7 ∷ 11 ∷ []
table false = 11 ∷ 7 ∷ 5 ∷ 3 ∷ 2 ∷ []

abbrev answered : Statement ℕ → List ℕ
answered (plain s) = selected table s
answered (joined s clauses) = keep_if (holds clauses) (selected table s)

abbrev primes : Database ℕ
primes = record {
  key = λ n. n;
  rows = answered;
  count = λ clauses. length (keep_if (holds clauses) (table true));
}

table-Ordered : (asc : Bool) → Ordered (λ n. n) asc (table asc)
table-Ordered true = (
  (refl, (refl, (refl, (refl, tt)))),
  ((refl, (refl, (refl, tt))), ((refl, (refl, tt)), ((refl, tt), (tt, tt)))),
)
table-Ordered false = (
  (refl, (refl, (refl, (refl, tt)))),
  ((refl, (refl, (refl, tt))), ((refl, (refl, tt)), ((refl, tt), (tt, tt)))),
)

counted :
    (clauses : List (ℕ → Bool)) (asc : Bool)
    → length (keep_if (holds clauses) (table true)) ≡ length (keep_if (holds clauses) (table asc))
counted clauses true = refl
counted clauses false = ground arith

abbrev laws : TableLaws primes
laws = record {
  all_rows = table;
  all_rows-Ordered = table-Ordered;
  rows-plain = λ s. refl;
  rows-joined = λ s clauses. refl;
  count_lem = counted;
}

-- A cursor is one stroke more than its key has units.
abbrev strokes : ℕ → String
strokes zero = "i"
strokes (suc n) = String.◌∷◌ (char_at "i" 0) (strokes n)

abbrev units : String → ℕ
units String.[] = 0
units (String.◌∷◌ _ s) = suc (units s)

units-strokes : (n : ℕ) → units (strokes n) ≡ suc n
units-strokes zero = refl
units-strokes (suc n) = ap suc (units-strokes n)

strokes_truthy : (n : ℕ) → str_truthy (strokes n) ≡ true
strokes_truthy zero = refl
strokes_truthy (suc n) = refl

less : (n : ℕ) → suc n - 1 ≡ n
less n = omega arith

-- A text of JSON begins with its kind, and base64 changes nothing.
abbrev dumped : Value → String
dumped (uuid_value n) = String.◌∷◌ (char_at "u" 0) (strokes n)
dumped (int_value n) = String.◌∷◌ (char_at "i" 0) (strokes n)
dumped (text_value s) = String.◌∷◌ (char_at "t" 0) s
dumped other_value = "null"

abbrev loaded : String → Try Value
loaded String.[] = raise (py value_error [])
loaded (String.◌∷◌ c s) =
    ok (if nat_beq (code c) b't' then text_value s else int_value (units s - 1))

abbrev number_of : Value → Try ℕ
number_of (text_value s) = ok (units s - 1)
number_of (int_value n) = ok n
number_of _ = raise (py type_error [])

abbrev libraries : CursorLibraries
libraries = record {
  dumps = dumped;
  loads = loaded;
  b64encode = λ s. s;
  b64decode = λ s. ok s;
  hex = strokes;
  uuid = number_of;
  int = number_of;
}

unstroked : (n : ℕ) → units (strokes n) - 1 ≡ n
unstroked n = ap (λ m. m - 1) (units-strokes n) ∙ less n

dumped_truthy : (v : Value) → str_truthy (dumped v) ≡ true
dumped_truthy (uuid_value n) = refl
dumped_truthy (int_value n) = refl
dumped_truthy (text_value s) = refl
dumped_truthy other_value = refl

library_laws : LibraryLaws libraries
library_laws = record {
  loads-dumps-text = λ s. refl;
  loads-dumps-int = λ n. ap (λ m. ok (int_value m)) (unstroked n);
  dumps_truthy = dumped_truthy;
  b64decode-b64encode = λ s. refl;
  b64encode_truthy = λ s h. h;
  uuid-hex = λ n. ap ok (unstroked n);
  int_int = λ n. refl;
}

abbrev codec : Cursors
unfolding cursor_encoder cursor_decoder
codec = cursors_of libraries uuid_cursor

abbrev odd : ℕ → Bool
odd n = nat_beq (n % 2) 1

-- The second of two pages of one row.
abbrev second : GetManyByCursor ℕ
second = record {
  loads = [];
  clauses = odd ∷ [];
  asc = false;
  limit = 2;
  cursor = some (codec.encode 7);
}

paged_second :
    perform_cursor primes codec second []
    ≡ ok (record { items = 5 ∷ 3 ∷ []; results_per_page = 2; cursor = "" })
unfolding perform_cursor codec cursor_encoder cursor_decoder
paged_second = refl

traverse-cursors_of_example :
    traverse primes
      (cursors_of libraries uuid_cursor)
      5
      (record { loads = "roles" ∷ []; clauses = odd ∷ []; asc = false; limit = 2; cursor = none })
    ≡ ok (11 ∷ 7 ∷ 5 ∷ 3 ∷ [])
traverse-cursors_of_example =
    traverse-cursors_of libraries library_laws primes laws uuid_cursor ("roles" ∷ []) (odd ∷ [])
      false 1

abbrev by_offset : GetManyByOffset ℕ
by_offset = record { loads = []; clauses = odd ∷ []; asc = true; offset = some 1; limit = some 2 }
