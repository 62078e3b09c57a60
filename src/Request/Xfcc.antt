-- ===== src/Request/Xfcc.antt =====
-- internal/request/xfcc.go: the identity of a client certificate that a proxy in front forwards.
use Prim.Native.String.{[], ◌∷◌}
use capsule_proxy.Prelude.{
  ℕ, String, code, Bool, true, false, not, ◌&&◌, Option, none, some, List, ◌++◌, Result, ok, err,
  ◌>>=◌, ◌==◌, eqb, if◌then◌else◌, lookup, insert,
}
use capsule_proxy.Errors.{Error, unauthorized, fault, error_message}
use capsule_proxy.Go.Text.{◌<>◌, is_blank, trim_space, cut, to_lower}
use capsule_proxy.Go.Header.{Header, values}
use capsule_proxy.Request.World.{World, Identity, Certificate, Block}

abbrev pub backslash : ℕ
backslash = 92

abbrev pub quote : ℕ
quote = 34

-- The loop of `splitOutsideQuotes`: `current`, `inQuotes`, `escaped` and the rest of the text.
unfoldable pub split_loop :
    ℕ → List String → String → Bool → Bool → String → Result Error (List String)
split_loop sep result current in_quotes true [] = err (fault "dangling escape")
split_loop sep result current true false [] = err (fault "unterminated quote")
split_loop sep result current false false [] = ok (result ++ List.◌∷◌ (trim_space current) List.[])
split_loop sep result current in_quotes true (r ∷ s) =
    split_loop sep result (current <> r ∷ "") in_quotes false s
split_loop sep result current in_quotes false (r ∷ s) =
    let write = split_loop sep result (current <> r ∷ "") in_quotes false s in
    let escape = split_loop sep result (current <> r ∷ "") in_quotes in_quotes s in
    let toggle = split_loop sep result (current <> r ∷ "") (not in_quotes) false s in
    let close =
      split_loop sep (result ++ List.◌∷◌ (trim_space current) List.[]) "" in_quotes false s in
    if eqb (code r) backslash
    then escape
    else if eqb (code r) quote
    then toggle
    else if eqb (code r) sep && not in_quotes
    then close
    else write

unfoldable pub split_outside_quotes : String → ℕ → Result Error (List String)
unfolding split_loop
split_outside_quotes s sep = split_loop sep List.[] "" false false s

unfoldable pub split_xfcc_entries : String → Result Error (List String)
unfolding split_outside_quotes
split_xfcc_entries header = split_outside_quotes header b','

-- The loop of `unescapeQuoted`, with `escaped`.
unfoldable pub unescape_loop : String → Bool → String → Result Error String
unescape_loop b true [] = err (fault "dangling escape in quoted string")
unescape_loop b false [] = ok b
unescape_loop b true (r ∷ s) = unescape_loop (b <> r ∷ "") false s
unescape_loop b false (r ∷ s) =
    let drop = unescape_loop b true s in
    let write = unescape_loop (b <> r ∷ "") false s in
    if eqb (code r) backslash then drop else write

unfoldable pub unescape_quoted : String → Result Error String
unfolding unescape_loop
unescape_quoted s = unescape_loop "" false s

-- `v[:len(v)-1]` of a text that ends in a quote, and `none` of any other.
unfoldable pub before_last_quote : String → Option String
before_last_quote [] = none
before_last_quote (c ∷ []) = if eqb (code c) quote then some "" else none
before_last_quote (c ∷ d ∷ s) =
    let rest = before_last_quote (d ∷ s) in elim rest [ none ↦ none | some t ↦ some (c ∷ t) ]

abbrev unquote_inner : String → Option String → Result Error String
unquote_inner v none = ok v
unquote_inner v (some inner) = unescape_quoted inner

unfoldable pub unquote_xfcc_value : String → Result Error String
unfolding before_last_quote unescape_quoted
unquote_xfcc_value [] = ok ""
unquote_xfcc_value (c ∷ v) =
    if eqb (code c) quote then unquote_inner (c ∷ v) (before_last_quote v) else ok (c ∷ v)

-- One round of the loop of `parseXFCCFields`, on a trimmed part that is not empty.
unfoldable pub parse_field : String → Result Error (String × String)
unfolding unquote_xfcc_value
parse_field part = elim (cut b'=' part) [
  | none ↦ err (fault ("missing '=' in field " <> part))
  | some kv ↦
      let key = trim_space kv.0 in
      if is_blank key
      then err (fault "empty field name")
      else elim (unquote_xfcc_value (trim_space kv.1)) [
        | err e ↦ err (fault ("invalid value for " <> key <> ": " <> error_message e))
        | ok value ↦ ok (key, value)
      ]
]

abbrev pub Fields : Type 0
Fields = List (String × String)

unfoldable pub parse_parts : Fields → List String → Result Error Fields
unfolding parse_field
parse_parts fields List.[] = ok fields
parse_parts fields (List.◌∷◌ part parts) = elim (is_blank (trim_space part)) [
  | true ↦ parse_parts fields parts
  | false ↦ elim (parse_field (trim_space part)) [
    | err e ↦ err e
    | ok kv ↦ parse_parts (insert kv.0 kv.1 fields) parts
  ]
]

-- The error of a field that cannot be split names the key, if there is one.
unfoldable pub split_error : String → Error → Error
split_error entry e = elim (cut b'=' entry) [
  | none ↦ e
  | some kv ↦
      let key = trim_space kv.0 in
      if is_blank key then e else fault ("invalid value for " <> key <> ": " <> error_message e)
]

unfoldable pub parse_xfcc_fields : String → Result Error Fields
unfolding split_outside_quotes parse_parts split_error
parse_xfcc_fields entry = elim (split_outside_quotes entry b';') [
  | err e ↦ err (split_error entry e)
  | ok parts ↦ parse_parts List.[] parts
]

module _ (w : World) where
  unfoldable pub parse_block : Option Block × String → Result Error Certificate
  parse_block (none, rest) = err (fault "cert field is not valid PEM")
  parse_block (some block, rest) =
      if not (is_blank (trim_space rest))
      then err (fault "cert field contains trailing unexpected data")
      else if not (block.kind == "CERTIFICATE")
      then err (fault ("unexpected PEM block type " <> block.kind))
      else w.parse_certificate block.bytes

  unfoldable pub parse_xfcc_cert : String → Result Error Certificate
  unfolding parse_block
  parse_xfcc_cert v = do decoded ← w.query_unescape v; parse_block (w.pem_decode decoded)

  unfoldable pub verify_xfcc_hash : Certificate → String → Bool
  verify_xfcc_hash cert provided =
      to_lower (trim_space provided) == to_lower (w.sha256_hex cert.raw)

  unfoldable pub cert_identity : Certificate → Identity
  cert_identity cert = record { username = cert.common_name; groups = cert.organization }

  -- The checks on the certificate itself, from the hash on.
  unfoldable pub accept_cert : Certificate → Option String → Result Error Identity
  unfolding verify_xfcc_hash cert_identity
  accept_cert cert hash =
      let hash_fits : Bool = elim hash [
        | none ↦ true
        | some h ↦ if is_blank h then true else verify_xfcc_hash cert h
      ] in
      if not hash_fits
      then err (unauthorized "forwarded client certificate hash mismatch")
      else if is_blank cert.common_name
      then err (unauthorized "forwarded client certificate does not contain a username")
      else ok (cert_identity cert)

  unfoldable pub process_entry : String → Result Error Identity
  unfolding parse_xfcc_fields parse_xfcc_cert accept_cert
  process_entry entry = elim (parse_xfcc_fields entry) [
    | err e ↦ err (unauthorized ("invalid x-forwarded-client-cert fields: " <> error_message e))
    | ok fields ↦ elim (lookup "Cert" fields) [
      | none ↦ err (unauthorized "x-forwarded-client-cert missing Cert field")
      | some value ↦
          if is_blank value
          then err (unauthorized "x-forwarded-client-cert missing Cert field")
          else elim (parse_xfcc_cert value) [
            | err e ↦
                err (unauthorized ("invalid forwarded client certificate: " <> error_message e))
            | ok cert ↦ accept_cert cert (lookup "Hash" fields)
          ]
    ]
  ]

  unfoldable pub process_header : String → Result Error Identity
  unfolding split_xfcc_entries process_entry
  process_header value = elim (split_xfcc_entries value) [
    | err e ↦ err (unauthorized ("invalid x-forwarded-client-cert header: " <> error_message e))
    | ok entries ↦ elim entries [
      | List.[] ↦ err (unauthorized "expected exactly one x-forwarded-client-cert entry")
      | List.◌∷◌ entry rest ↦ elim rest [
        | List.[] ↦ process_entry entry
        | List.◌∷◌ _ _ ↦ err (unauthorized "expected exactly one x-forwarded-client-cert entry")
      ]
    ]
  ]

  unfoldable pub process_xfcc : Header → String → Result Error Identity
  unfolding process_header
  process_xfcc h xfcc_header = elim (values h xfcc_header) [
    | List.[] ↦ err (unauthorized "no x-forwarded-client-cert header provided")
    | List.◌∷◌ value rest ↦ elim rest [
      | List.[] ↦ process_header value
      | List.◌∷◌ _ _ ↦ err (unauthorized "multiple x-forwarded-client-cert headers are not allowed")
    ]
  ]
