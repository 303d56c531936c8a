-- ===== src/Queries/Codec.antt =====
-- src/backend/infra/database/alchemy/tools/common.py: how a cursor is encoded and decoded, and that
-- following such cursors gives every row. A `UUID` is its number of 128 bits, by which Postgres
-- orders it.
use litestar_cqrs_example.Common.{
  ℕ, suc, String, ◌≡◌, ap, ◌∙◌, Bool, true, none, List, length, keep_if, str_truthy,
}
use litestar_cqrs_example.Errors.{Try, ok, ◌>>=◌}
use litestar_cqrs_example.Queries.{Database, Cursors}
use litestar_cqrs_example.Queries.Table.{holds, TableLaws}
use litestar_cqrs_example.Queries.Traversal.{CursorLaws, traverse, traverse_lem}

-- `types.CursorType`
pub data CursorType : Type 0 where
  uuid_cursor integer_cursor : CursorType

-- A key, or what is in a text of JSON; another content of JSON is `other_value`.
pub data Value : Type 0 where
  uuid_value int_value : ℕ → Value
  text_value : String → Value
  other_value : Value

-- The encoder and the decoder of JSON, base64, `UUID.hex`, `UUID(…)` and `int(…)`.
pub record CursorLibraries : Type 0 where
  pub dumps : Value → String
  pub loads : String → Try Value
  pub b64encode : String → String
  pub b64decode : String → Try String
  pub hex : ℕ → String
  pub uuid : Value → Try ℕ
  pub int : Value → Try ℕ

-- Their documented effect
pub record LibraryLaws (libraries : CursorLibraries) : Type 0 where
  pub loads-dumps-text :
      (s : String) → libraries.loads (libraries.dumps (text_value s)) ≡ ok (text_value s)
  pub loads-dumps-int : (n : ℕ) → libraries.loads (libraries.dumps (int_value n)) ≡ ok (int_value n)
  pub dumps_truthy : (v : Value) → str_truthy (libraries.dumps v) ≡ true
  pub b64decode-b64encode : (s : String) → libraries.b64decode (libraries.b64encode s) ≡ ok s
  pub b64encode_truthy :
      (s : String) → str_truthy s ≡ true → str_truthy (libraries.b64encode s) ≡ true
  pub uuid-hex : (n : ℕ) → libraries.uuid (text_value (libraries.hex n)) ≡ ok n
  pub int_int : (n : ℕ) → libraries.int (int_value n) ≡ ok n

module _ (libraries : CursorLibraries) where
  -- What the encoder is given: the `hex` of a `UUID` where the cursor's type is "uuid".
  abbrev pub encodable : CursorType → Value → Value
  encodable uuid_cursor (uuid_value n) = text_value (libraries.hex n)
  encodable typ value = value

  unfoldable pub cursor_encoder : Value → CursorType → String
  cursor_encoder value typ = libraries.b64encode (libraries.dumps (encodable typ value))

  -- `uuid.UUID(decoded)` or `int(decoded)`
  abbrev pub key_of_value : CursorType → Value → Try ℕ
  key_of_value uuid_cursor decoded = libraries.uuid decoded
  key_of_value integer_cursor decoded = libraries.int decoded

  unfoldable pub cursor_decoder : String → CursorType → Try ℕ
  cursor_decoder value typ = libraries.b64decode value >>= λ text.
      libraries.loads text >>= λ decoded. key_of_value typ decoded

  -- The value of a primary key whose column has the type of the cursor
  abbrev pub value_of : CursorType → ℕ → Value
  value_of uuid_cursor n = uuid_value n
  value_of integer_cursor n = int_value n

  -- The cursors of a `GetManyByCursor` whose `cursor_type` is that of its primary key
  abbrev pub cursors_of : CursorType → Cursors
  cursors_of typ = record {
    encode = λ n. cursor_encoder (value_of typ n) typ;
    decode = λ value. cursor_decoder value typ;
  }

  module _ (laws : LibraryLaws libraries) where
    cursor_decoder-cursor_encoder :
        (typ : CursorType) (n : ℕ) → cursor_decoder (cursor_encoder (value_of typ n) typ) typ ≡ ok n
    unfolding cursor_decoder cursor_encoder
    cursor_decoder-cursor_encoder uuid_cursor n =
        let v = text_value (libraries.hex n) in
        ap (λ t. t >>= λ text. libraries.loads text >>= λ d. key_of_value uuid_cursor d)
          (laws.b64decode-b64encode (libraries.dumps v))
        ∙ ap (λ t. t >>= λ d. key_of_value uuid_cursor d) (laws.loads-dumps-text (libraries.hex n))
        ∙ laws.uuid-hex n
    cursor_decoder-cursor_encoder integer_cursor n =
        ap (λ t. t >>= λ text. libraries.loads text >>= λ d. key_of_value integer_cursor d)
          (laws.b64decode-b64encode (libraries.dumps (int_value n)))
        ∙ ap (λ t. t >>= λ d. key_of_value integer_cursor d) (laws.loads-dumps-int n)
        ∙ laws.int_int n

    pub cursor_laws : (typ : CursorType) → CursorLaws (cursors_of typ)
    unfolding cursor_encoder
    cursor_laws typ = record {
      decode-encode = cursor_decoder-cursor_encoder typ;
      encode_truthy = λ n.
          laws.b64encode_truthy (libraries.dumps (encodable typ (value_of typ n)))
            (laws.dumps_truthy (encodable typ (value_of typ n)));
    }

    -- Whatever it loads, in either order, with a key of either type and any page size but zero, a
    -- client that starts without a cursor and follows the cursors gets every row that matches exactly
    -- once, in the order of their keys, in at most one page more than there are such rows, and then no
    -- cursor.
    pub traverse-cursors_of :
        {R : Type 0} (db : Database R) (tables : TableLaws db) (typ : CursorType)
        (loads : List String) (clauses : List (R → Bool)) (asc : Bool) (n : ℕ)
        → traverse db
            (cursors_of typ)
            (suc (length (keep_if (holds clauses) (tables.all_rows asc))))
            (record { loads = loads; clauses = clauses; asc = asc; limit = suc n; cursor = none })
          ≡ ok (keep_if (holds clauses) (tables.all_rows asc))
    traverse-cursors_of db tables typ = traverse_lem db tables (cursors_of typ) (cursor_laws typ)
