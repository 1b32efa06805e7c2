-- ===== src/Transactions/Listing/Cursors.antt =====
-- Cursors as texts (transactions/cursor.util.ts). JSON, base64url, dates and UUIDs as texts belong to Node.js: they enter as `NodeTexts`, with
-- the types of their texts.
use ledger_ops_api.Common.{
  ℕ, ◌≡◌, String, Option, some, none, Bool, Result, ok, err, bad_request, plain_error, str_eq,
  if◌then◌else◌, refl, ap, ◌∙◌, ◌≤◌,
}
use ledger_ops_api.Database.Tables.{Database}
use ledger_ops_api.Transactions.Listing.{TransactionCursor, Page, ListTransactionsQuery, list}

mutual
  -- What JSON.parse gives.
  pub data Json : Type 0 where
    null : Json
    boolean : Bool → Json
    number : String → Json
    text : String → Json
    array : Elements → Json
    object : Members → Json

  pub data Elements : Type 0 where
    no_elements : Elements
    element : Json → Elements → Elements

  pub data Members : Type 0 where
    no_members : Members
    member : String → Json → Members → Members

-- A cursor before its date and id are read.
pub record RawCursor : Type 0 where
  pub created_at : String
  pub id : String

-- A property of an object, where it is there and `typeof` says "string".
abbrev pub as_text : Json → Option String
as_text (text s) = some s
as_text null = none
as_text (boolean b) = none
as_text (number n) = none
as_text (array es) = none
as_text (object ms) = none

unfoldable pub text_member : String → Members → Option String
text_member name no_members = none
text_member name (member key value ms) =
    if str_eq key name then as_text value else text_member name ms

abbrev pub both_texts : Option String → Option String → Result RawCursor
both_texts (some a) (some i) = ok (record { created_at = a; id = i })
both_texts (some a) none = err bad_request
both_texts none i = err bad_request

-- The shape that the code asks for. An array has neither property.
unfoldable pub of_json : Json → Result RawCursor
unfolding text_member
of_json (object ms) = both_texts (text_member "createdAt" ms) (text_member "id" ms)
of_json null = err bad_request
of_json (boolean b) = err bad_request
of_json (number n) = err bad_request
of_json (text s) = err bad_request
of_json (array es) = err bad_request

abbrev pub to_json : RawCursor → Json
to_json c = object (member "createdAt" (text c.created_at) (member "id" (text c.id) no_members))

pub record NodeTexts (JsonText Raw : Type 0) : Type 0 where
  pub stringify : Json → JsonText
  pub parse : JsonText → Option Json
  pub to_base64url : JsonText → Raw
  pub from_base64url : Raw → JsonText
  pub to_iso_string : ℕ → String
  pub date_of : String → Option ℕ
  pub text_of_id : ℕ → String
  pub id_of_text : String → Option ℕ

-- The last date of JavaScript, in milliseconds.
abbrev pub last_date : ℕ
last_date = 8640000000000000

-- What Node.js documents of these functions: a cursor is read back from its text, a date up to the last one from its text in ISO
-- format, and an id from its text.
pub record Inverse {JsonText Raw : Type 0} (node : NodeTexts JsonText Raw) : Type 0 where
  pub json : (c : RawCursor) → node.parse (node.stringify (to_json c)) ≡ some (to_json c)
  pub base64url : (t : JsonText) → node.from_base64url (node.to_base64url t) ≡ t
  pub date : (n : ℕ) → n ≤ last_date → node.date_of (node.to_iso_string n) ≡ some n
  pub id : (i : ℕ) → node.id_of_text (node.text_of_id i) ≡ some i

module _ {JsonText Raw : Type 0} (node : NodeTexts JsonText Raw) where
  unfoldable pub encode_cursor : RawCursor → Raw
  encode_cursor c = node.to_base64url (node.stringify (to_json c))

  -- `none` is what JSON.parse throws.
  abbrev pub of_parsed : Option Json → Result RawCursor
  of_parsed none = err bad_request
  of_parsed (some j) = of_json j

  unfoldable pub decode_cursor : Raw → Result RawCursor
  unfolding of_json
  decode_cursor raw = of_parsed (node.parse (node.from_base64url raw))

  abbrev position : Option ℕ → Option ℕ → Result TransactionCursor
  position (some t) (some i) = ok (record { created_at = t; id = i })
  position (some t) none = err plain_error
  position none i = err plain_error

  -- `new Date(cursor.createdAt)`, and the id as the database reads it: the query throws where one of them is none.
  abbrev pub read_raw : Result RawCursor → Result TransactionCursor
  read_raw (ok c) = position (node.date_of c.created_at) (node.id_of_text c.id)
  read_raw (err e) = err e

  -- The nextCursor of a page, as a text.
  unfoldable pub next_cursor_text : TransactionCursor → Raw
  unfolding encode_cursor
  next_cursor_text c =
      encode_cursor
        (record { created_at = node.to_iso_string c.created_at; id = node.text_of_id c.id })

  unfoldable pub read_cursor : Raw → Result TransactionCursor
  unfolding decode_cursor
  read_cursor raw = read_raw (decode_cursor raw)

  to_json-of_json : (c : RawCursor) → of_json (to_json c) ≡ ok c
  unfolding of_json text_member str_eq
  to_json-of_json c = refl

  pub read_cursor-next_cursor_text :
      (c : TransactionCursor)
      → Inverse node
      → c.created_at ≤ last_date
      → read_cursor (next_cursor_text c) ≡ ok c
  unfolding read_cursor next_cursor_text encode_cursor decode_cursor
  read_cursor-next_cursor_text c laws h =
      let raw : RawCursor = record {
        created_at = node.to_iso_string c.created_at;
        id = node.text_of_id c.id;
      } in
      let json : node.parse (node.from_base64url (node.to_base64url (node.stringify (to_json raw))))
          ≡ some (to_json raw) =
        ap node.parse (laws.base64url (node.stringify (to_json raw))) ∙ laws.json raw in
      ap (λ (o : Option Json). read_raw (of_parsed o)) json
      ∙ ap read_raw (to_json-of_json raw)
      ∙ rw (laws.date c.created_at h, laws.id c.id) refl

  abbrev pub at_cursor :
      Result TransactionCursor → ListTransactionsQuery → Option ℕ → Database → Result Page
  at_cursor (ok c) q merchant_id d = ok (list (record q { cursor = some c }) merchant_id d)
  at_cursor (err e) q merchant_id d = err e

  -- `list`, on the text of a cursor.
  unfoldable pub list_by_text :
      ListTransactionsQuery → Option Raw → Option ℕ → Database → Result Page
  unfolding read_cursor
  list_by_text q none merchant_id d = ok (list (record q { cursor = none }) merchant_id d)
  list_by_text q (some raw) merchant_id d = at_cursor (read_cursor raw) q merchant_id d

  -- A request with the text of a cursor lists what the cursor asks for.
  pub list_by_text-next_cursor_text :
      (q : ListTransactionsQuery) (c : TransactionCursor) (merchant_id : Option ℕ) (d : Database)
      → Inverse node
      → c.created_at ≤ last_date
      → list_by_text q (some (next_cursor_text c)) merchant_id d
        ≡ ok (list (record q { cursor = some c }) merchant_id d)
  unfolding list_by_text
  list_by_text-next_cursor_text q c merchant_id d laws h =
      ap (λ (r : Result TransactionCursor). at_cursor r q merchant_id d)
        (read_cursor-next_cursor_text c laws h)
