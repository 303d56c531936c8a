-- ===== src/Api/Context.antt =====
-- src/backend/http/common/tools/context.py: the key under which the answer to a request is cached.
use litestar_cqrs_example.Common.{
  String, ◌≡◌, sym, ap, ◌∙◌, Bool, true, false, Option, none, some, List, [], ◌∷◌, if◌then◌else◌,
  ltb, nat_beq, ◌+s◌, arith, ◌&&◌, ◌||◌,
}
use Prim.Native.Char.{code}
use Prim.Native.String.{count}
use text.Mathlib.TextLemmas.{length-append, append_assoc, append_inj}
use litestar_cqrs_example.Access.{AuthUser, Value, Entries, no_entries, entry, Context}

-- Python's order of texts, by their characters.
abbrev text_less : String → String → Bool
text_less String.[] String.[] = false
text_less String.[] (String.◌∷◌ _ _) = true
text_less (String.◌∷◌ _ _) String.[] = false
text_less (String.◌∷◌ c s) (String.◌∷◌ d t) =
    ltb (code c) (code d) || (nat_beq (code c) (code d) && text_less s t)

abbrev insert : String × Value → List (String × Value) → List (String × Value)
insert x [] = x ∷ []
insert x (y ∷ ys) = if text_less y.0 x.0 then y ∷ insert x ys else x ∷ y ∷ ys

-- `sorted(….items(), key=_sort_by_key)`
unfoldable pub sorted_items : Entries → List (String × Value)
sorted_items no_entries = []
sorted_items (entry k v entries) = insert (k, v) (sorted_items entries)

abbrev or_empty : Option String → String
or_empty none = ""
or_empty (some s) = s

-- `ctx.user.id`, as the text of a `UUID`
abbrev user_text : (uuid_text : String → String) → Option AuthUser → String
user_text uuid_text none = ""
user_text uuid_text (some user) = uuid_text user.id

-- `cache_request_key_builder`, over `urllib.parse.urlencode` and `str` of an identifier.
unfoldable pub cache_request_key_builder :
    (urlencode : List (String × Value) → String) → (uuid_text : String → String) → Context → String
unfolding sorted_items
cache_request_key_builder urlencode uuid_text ctx =
    or_empty ctx.request_method
    +s or_empty ctx.request_path
    +s urlencode (sorted_items ctx.request_query_params)
    +s user_text uuid_text ctx.user

-- Equal texts with ends of one length have equal ends.
ends_equal : (a b u v : String) → a +s u ≡ b +s v → count u ≡ count v → u ≡ v
ends_equal a b u v h same =
    let lengths = sym (length-append a u) ∙ ap count h ∙ length-append b v in
    let fronts : count a ≡ count b = omega (arith, lengths, same) in (append_inj h fronts).1

-- The key without the user
abbrev front : (List (String × Value) → String) → Context → String
unfolding sorted_items
front urlencode ctx =
    or_empty ctx.request_method
    +s or_empty ctx.request_path
    +s urlencode (sorted_items ctx.request_query_params)

key_ends :
    (urlencode : List (String × Value) → String) (uuid_text : String → String) (ctx : Context)
    (user : AuthUser)
    → ctx.user ≡ some user
    → front urlencode ctx +s uuid_text user.id ≡ cache_request_key_builder urlencode uuid_text ctx
unfolding cache_request_key_builder front
key_ends urlencode uuid_text ctx user has =
    let method = or_empty ctx.request_method in
    let path = or_empty ctx.request_path in
    let query = urlencode (sorted_items ctx.request_query_params) in
    append_assoc method (path +s query) (uuid_text user.id)
    ∙ ap (λ s. method +s s) (append_assoc path query (uuid_text user.id))
    ∙ ap (λ u. method +s path +s query +s user_text uuid_text u) (sym has)

-- Two users never share a cached answer: where the keys of two requests are equal and the texts of
-- their users' identifiers have the one length of a `UUID`, the identifiers are the same.
pub cache_request_key_builder-user :
    (urlencode : List (String × Value) → String) (uuid_text : String → String) (ctx ctx' : Context)
    (user user' : AuthUser)
    → ctx.user ≡ some user
    → ctx'.user ≡ some user'
    → count (uuid_text user.id) ≡ count (uuid_text user'.id)
    → cache_request_key_builder urlencode uuid_text ctx
      ≡ cache_request_key_builder urlencode uuid_text ctx'
    → uuid_text user.id ≡ uuid_text user'.id
cache_request_key_builder-user urlencode uuid_text ctx ctx' user user' has has' same keys =
    ends_equal (front urlencode ctx) (front urlencode ctx') (uuid_text user.id) (uuid_text user'.id)
      (key_ends urlencode uuid_text ctx user has
        ∙ keys
        ∙ sym (key_ends urlencode uuid_text ctx' user' has'))
      same
