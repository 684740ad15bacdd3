-- ===== src/PostData.antt =====
-- src/tools.cpp: url_decode and parse_crow_post_data; src/tools.h: remove_bad_chars; and the two
-- routes of main.cpp that read a form, /search and /checkandpush.
pub mod Forms
pub mod Clean
use explorer_qwertycoin_org.Base.{
  ℕ, ◌+◌, ◌-◌, ◌*◌, ◌%◌, Bool, true, false, ◌&&◌, ◌||◌, not, List, [], ◌∷◌, Option, none, some,
  Bytes, codes, same, is_empty, ltb, leb, ◌==◌, if◌then◌else◌, length, take, split_on,
}
use explorer_qwertycoin_org.Decimal.{skip_space}

unfoldable pub hex_value : ℕ → Option ℕ
hex_value c =
    if leb b'0' c && leb c b'9'
    then some (c - b'0')
    else if leb b'a' c && leb c b'f'
    then some (c - b'a' + 10)
    else if leb b'A' c && leb c b'F'
    then some (c - b'A' + 10)
    else none

-- The number that the longest run of hexadecimal digits spells behind `acc`.
unfoldable pub take_hex : ℕ → Bytes → ℕ
unfolding hex_value
take_hex acc [] = acc
take_hex acc (c ∷ s) = elim (hex_value c) [ none ↦ acc | some d ↦ take_hex (acc * 16 + d) s ]

abbrev starts_with_hex : Bytes → Bool
starts_with_hex [] = false
starts_with_hex (c ∷ s) = elim (hex_value c) [ none ↦ false | some d ↦ true ]

-- A prefix 0x with nothing behind it is no number.
unfoldable pub unsigned_hex : Bytes → Option ℕ
unfolding take_hex
unsigned_hex s =
    if not (starts_with_hex s) || same s (codes "0x") || same s (codes "0X")
    then none
    else some (take_hex 0 s)

-- A negative number, as the char that it is cast to.
abbrev negated : Option ℕ → Option ℕ
negated none = none
negated (some n) = some ((256 - n % 256) % 256)

unfoldable pub signed_hex : Bytes → Option ℕ
unfolding unsigned_hex
signed_hex [] = none
signed_hex (c ∷ s) =
    if c == b'+'
    then unsigned_hex s
    else if c == b'-'
    then negated (unsigned_hex s)
    else unsigned_hex (c ∷ s)

-- `is >> std::hex >> value` of the two characters behind a percent sign, cast to a char.
unfoldable pub read_escape : Bytes → Option ℕ
unfolding signed_hex skip_space
read_escape s = signed_hex (skip_space s)

abbrev pub onto : ℕ → Option Bytes → Option Bytes
onto c none = none
onto c (some out) = some (c ∷ out)

abbrev pub onto_escaped : Option ℕ → Option Bytes → Option Bytes
onto_escaped none out = none
onto_escaped (some value) out = onto (value % 256) out

abbrev pub plain : ℕ → ℕ
plain c = if c == b'+' then b' ' else c

-- `none` for false; the caller does not look at the text then.
unfoldable pub url_decode : Bytes → Option Bytes
unfolding read_escape
url_decode [] = some []
url_decode (c ∷ []) = if c == b'%' then none else some (plain c ∷ [])
url_decode (c ∷ d ∷ []) = if c == b'%' then none else onto (plain c) (url_decode (d ∷ []))
url_decode (c ∷ d ∷ e ∷ s) = elim (c == b'%') [
  | true ↦ onto_escaped (read_escape (d ∷ e ∷ [])) (url_decode s)
  | false ↦ onto (plain c) (url_decode (d ∷ e ∷ s))
]

-- std::map<std::string, std::string>, in the order of insertion; each key stands once.
abbrev pub Body : Type 0
Body = List (Bytes × Bytes)

-- `body[key] = value`
unfoldable pub assign : Bytes → Bytes → Body → Body
assign key value [] = (key, value) ∷ []
assign key value ((k, v) ∷ body) =
    let rest = assign key value body in if same k key then (key, value) ∷ body else (k, v) ∷ rest

unfoldable pub find : Bytes → Body → Option Bytes
find key [] = none
find key ((k, v) ∷ body) = let rest = find key body in if same k key then some v else rest

abbrev before : ℕ → Option (Bytes × Bytes) → Option (Bytes × Bytes)
before c none = none
before c (some (name, value)) = some (c ∷ name, value)

-- The name and the value around the first equals sign.
unfoldable pub cut_field : Bytes → Option (Bytes × Bytes)
cut_field [] = none
cut_field (c ∷ s) = let rest = before c (cut_field s) in if c == b'=' then some ([], s) else rest

-- The loop over the parts, which ends at the first without an equals sign.
unfoldable pub add_fields : List Bytes → Body → Body
unfolding cut_field assign
add_fields [] body = body
add_fields (part ∷ parts) body = elim (cut_field part) [
  | none ↦ body
  | some (name, value) ↦ add_fields parts (assign name value body)
]

abbrev pub fields_of : Option Bytes → Body
fields_of none = []
fields_of (some text) = add_fields (split_on b'&' text) []

unfoldable pub parse_crow_post_data : Bytes → Body
unfolding url_decode add_fields
parse_crow_post_data req_body = fields_of (url_decode req_body)

abbrev pub is_good : ℕ → Bool
is_good c =
    (leb b'a' c && leb c b'z')
    || (leb b'A' c && leb c b'Z')
    || (leb b'0' c && leb c b'9')
    || c == b'+'
    || c == b'/'
    || c == b'='

-- Less whatever the pattern [^a-zA-Z0-9+/=] matches.
unfoldable pub remove_bad_chars : Bytes → Bytes
remove_bad_chars [] = []
remove_bad_chars (c ∷ s) = let rest = remove_bad_chars s in if is_good c then c ∷ rest else rest

-- /search: the page without results, or the search of a text.
pub data SearchRoute : Type 0 where
  too_large : SearchRoute
  bad_request : Bytes → SearchRoute
  searched : Bytes → SearchRoute

abbrev pub by_value : Option Bytes → SearchRoute
by_value none = bad_request []
by_value (some value) =
    if is_empty value || ltb 128 (length value)
    then bad_request (remove_bad_chars (take 128 value))
    else searched (remove_bad_chars value)

unfoldable pub search_route : Bytes → SearchRoute
unfolding parse_crow_post_data remove_bad_chars find
search_route req_body =
    if ltb 4096 (length req_body)
    then too_large
    else by_value (find (codes "value") (parse_crow_post_data req_body))

-- /checkandpush: which of the two pages is shown, on what raw data, or neither.
pub data PushRoute : Type 0 where
  not_provided : PushRoute
  checked : Bytes → PushRoute
  pushed : Bytes → PushRoute
  neither : PushRoute

abbrev pub by_action : Bytes → Bytes → PushRoute
by_action raw_tx_data action =
    if same action (codes "check")
    then checked raw_tx_data
    else if same action (codes "push")
    then pushed raw_tx_data
    else neither

abbrev pub by_fields : Option Bytes → Option Bytes → PushRoute
by_fields none action = not_provided
by_fields (some raw) none = not_provided
by_fields (some raw) (some action) = by_action (remove_bad_chars raw) (remove_bad_chars action)

unfoldable pub check_and_push : Bytes → PushRoute
unfolding parse_crow_post_data remove_bad_chars find
check_and_push req_body =
    let body = parse_crow_post_data req_body in
    by_fields (find (codes "rawtxdata") body) (find (codes "action") body)
