-- ===== src/PostData/Forms.antt =====
-- What parse_crow_post_data of src/tools.cpp finds in a form that was percent-encoded.
use explorer_qwertycoin_org.Base.{
  ℕ, zero, suc, ◌+◌, ◌-◌, ◌/◌, ◌%◌, ◌<◌, Bool, true, false, ◌&&◌, ◌||◌, List, [], ◌∷◌, ◌++◌, Option,
  none, some, Bytes, same, same_iff, leb, ltb, ◌==◌, if◌then◌else◌, ◌≡◌, ◌≢◌, refl, ap, ◌∙◌, sym,
  arith, inl, inr, All, All-append, map, append_assoc, append-nil, Bool-cases, split_on,
  split_on_field, split_on_last, IsFreeOf, ==_iff,
}
use explorer_qwertycoin_org.PostData.{
  read_escape, onto, plain, url_decode, Body, assign, find, cut_field, add_fields, fields_of,
  parse_crow_post_data,
}

-- application/x-www-form-urlencoded: letters and digits stand for themselves, every other byte is
-- an escape.
abbrev is_alnum : ℕ → Bool
is_alnum c = (leb b'a' c && leb c b'z') || (leb b'A' c && leb c b'Z') || (leb b'0' c && leb c b'9')

abbrev hex_digit : ℕ → ℕ
hex_digit n = if ltb n 10 then b'0' + n else b'A' + (n - 10)

unfoldable pub encode : Bytes → Bytes
encode [] = []
encode (c ∷ s) =
    let rest = encode s in
    if is_alnum c then c ∷ rest else b'%' ∷ hex_digit (c / 16) ∷ hex_digit (c % 16) ∷ rest

abbrev pub Field : Type 0
Field = Bytes × Bytes

unfoldable pub encode_form : List Field → Bytes
unfolding encode
encode_form [] = []
encode_form ((name, value) ∷ []) = encode name ++ b'=' ∷ encode value
encode_form ((name, value) ∷ f ∷ fs) =
    encode name ++ b'=' ∷ (encode value ++ b'&' ∷ encode_form (f ∷ fs))

-- The form as it reads when it is decoded.
unfoldable pub plain_form : List Field → Bytes
plain_form [] = []
plain_form ((name, value) ∷ []) = name ++ b'=' ∷ value
plain_form ((name, value) ∷ f ∷ fs) = name ++ b'=' ∷ (value ++ b'&' ∷ plain_form (f ∷ fs))

abbrev pub IsBytes : Bytes → Type 0
IsBytes = All (λ c. c < 256)

abbrev in_front : Bytes → Option Bytes → Option Bytes
in_front s none = none
in_front s (some out) = some (s ++ out)

decode-plain :
    (c : ℕ) (s : Bytes) → (c == b'%') ≡ false → url_decode (c ∷ s) ≡ onto (plain c) (url_decode s)
unfolding url_decode
decode-plain c [] h = rw h refl
decode-plain c (d ∷ []) h = rw h refl
decode-plain c (d ∷ e ∷ s) h = rw (h, url_decode) refl

holds_below : ℕ → (ℕ → Bool) → Bool
holds_below zero p = true
holds_below (suc n) p = p n && holds_below n p

holds_below_sound : (n : ℕ) (p : ℕ → Bool) (x : ℕ) → holds_below n p ≡ true → x < n → p x ≡ true
unfolding holds_below
holds_below_sound zero p x h lt = absurd (omega arith)
holds_below_sound (suc n) p x h lt = ground (arith, holds_below_sound n p x)

abbrev is_value : Option ℕ → ℕ → Bool
is_value none c = false
is_value (some n) c = n == c

escape_table :
    holds_below 256 (λ c. is_value (read_escape (hex_digit (c / 16) ∷ hex_digit (c % 16) ∷ [])) c)
    ≡ true
unfolding holds_below read_escape same
escape_table = refl

is_value_lem : (o : Option ℕ) (c : ℕ) → is_value o c ≡ true → o ≡ some c
is_value_lem none c h = cc
is_value_lem (some n) c h = ap some ((==_iff n c).0 h)

read_escape-hex :
    (c : ℕ) → c < 256 → read_escape (hex_digit (c / 16) ∷ hex_digit (c % 16) ∷ []) ≡ some c
read_escape-hex c h = is_value_lem _ c (holds_below_sound 256 _ c escape_table h)

decode-escape :
    (c : ℕ) (s : Bytes)
    → c < 256
    → url_decode (b'%' ∷ hex_digit (c / 16) ∷ hex_digit (c % 16) ∷ s) ≡ onto c (url_decode s)
unfolding url_decode
decode-escape c s h = rw (read_escape-hex c h) (ap (λ n. onto n (url_decode s)) (omega arith))

onto-in_front : (c : ℕ) (s : Bytes) (o : Option Bytes) → onto c (in_front s o) ≡ in_front (c ∷ s) o
onto-in_front c s none = refl
onto-in_front c s (some out) = refl

decode-encode : (s t : Bytes) → IsBytes s → url_decode (encode s ++ t) ≡ in_front s (url_decode t)
unfolding encode
decode-encode [] t h = nil (url_decode t)
  where
    nil : (o : Option Bytes) → o ≡ in_front [] o
    nil none = refl
    nil (some out) = refl
decode-encode (c ∷ s) t h = elim (Bool-cases (is_alnum c)) [
  | inl alnum ↦ rw (alnum) (
      decode-plain c (encode s ++ t) (ground (arith, alnum))
      ∙ ap (λ n. onto n (url_decode (encode s ++ t))) (ground (arith, alnum))
      ∙ ap (onto c) (decode-encode s t h.1)
      ∙ onto-in_front c s (url_decode t))
  | inr other ↦ rw (other) (
      decode-escape c (encode s ++ t) h.0
      ∙ ap (onto c) (decode-encode s t h.1)
      ∙ onto-in_front c s (url_decode t))
]

decode-pair :
    (name value rest : Bytes)
    → IsBytes name
    → IsBytes value
    → url_decode (encode name ++ b'=' ∷ (encode value ++ rest))
      ≡ in_front name (onto b'=' (in_front value (url_decode rest)))
decode-pair name value rest hn hv =
    decode-encode name (b'=' ∷ (encode value ++ rest)) hn
    ∙ ap (in_front name) (
        decode-plain b'=' (encode value ++ rest) refl
        ∙ ap (onto b'=') (decode-encode value rest hv))

-- A name holds no equals sign, and neither part an ampersand.
abbrev pub IsField : Field → Type 0
IsField (name, value) =
    IsBytes name × IsBytes value × IsFreeOf b'=' name × IsFreeOf b'&' name × IsFreeOf b'&' value

decode-form :
    (fs : List Field) → All IsField fs → url_decode (encode_form fs) ≡ some (plain_form fs)
unfolding encode_form plain_form url_decode
decode-form [] h = refl
decode-form ((name, value) ∷ []) h =
    ap (λ s. url_decode (encode name ++ b'=' ∷ s)) (sym (append-nil (encode value)))
    ∙ decode-pair name value [] h.0.0 h.0.1
    ∙ ap (λ s. some (name ++ b'=' ∷ s)) (append-nil value)
decode-form ((name, value) ∷ f ∷ fs) h =
    decode-pair name value (b'&' ∷ encode_form (f ∷ fs)) h.0.0 h.0.1
    ∙ ap (λ o. in_front name (onto b'=' (in_front value o)))
        (decode-plain b'&' (encode_form (f ∷ fs)) refl ∙ ap (onto b'&') (decode-form (f ∷ fs) h.1))

abbrev part : Field → Bytes
part (name, value) = name ++ b'=' ∷ value

part-free : (f : Field) → IsField f → IsFreeOf b'&' (part f)
part-free (name, value) h = All-append (λ c. c ≢ b'&') name (b'=' ∷ value) h.3 (omega arith, h.4)

split-form :
    (f : Field) (fs : List Field)
    → All IsField (f ∷ fs)
    → split_on b'&' (plain_form (f ∷ fs)) ≡ map part (f ∷ fs)
unfolding plain_form
split-form (name, value) [] h =
    split_on_last b'&' (part (name, value)) (part-free (name, value) h.0)
split-form (name, value) (g ∷ fs) h =
    ap (split_on b'&') (sym (append_assoc name (b'=' ∷ value) (b'&' ∷ plain_form (g ∷ fs))))
    ∙ split_on_field b'&' (part (name, value)) (plain_form (g ∷ fs)) (part-free (name, value) h.0)
    ∙ ap (λ ps. part (name, value) ∷ ps) (split-form g fs h.1)

cut_field-part :
    (name value : Bytes) → IsFreeOf b'=' name → cut_field (part (name, value)) ≡ some (name, value)
unfolding cut_field
cut_field-part [] value h = refl
cut_field-part (c ∷ name) value h = ground (arith, cut_field-part name value h.1)

assign_all : List Field → Body → Body
assign_all [] body = body
assign_all ((name, value) ∷ fs) body = assign_all fs (assign name value body)

add_fields-parts :
    (fs : List Field) (body : Body)
    → All IsField fs
    → add_fields (map part fs) body ≡ assign_all fs body
unfolding add_fields assign_all
add_fields-parts [] body h = refl
add_fields-parts ((name, value) ∷ fs) body h =
    rw (cut_field-part name value h.0.2, add_fields)
      (add_fields-parts fs (assign name value body) h.1)

find-assign :
    (key k v : Bytes) (body : Body)
    → find key (assign k v body) ≡ (if same k key then some v else find key body)
unfolding find assign
find-assign key k v [] = refl
find-assign key k v ((j, w) ∷ body) =
    ground (arith, same_iff j k, same_iff j key, same_iff k key, find-assign key k v body)

-- The value of the last field of a name, or what was there before.
unfoldable pub last_value : Bytes → List Field → Option Bytes → Option Bytes
last_value key [] found = found
last_value key ((name, value) ∷ fs) found =
    last_value key fs (if same name key then some value else found)

find-assign_all :
    (key : Bytes) (fs : List Field) (body : Body)
    → find key (assign_all fs body) ≡ last_value key fs (find key body)
unfolding assign_all last_value
find-assign_all key [] body = refl
find-assign_all key ((name, value) ∷ fs) body =
    find-assign_all key fs (assign name value body)
    ∙ ap (last_value key fs) (find-assign key name value body)

-- For fields of bytes whose names hold no equals sign and which hold no ampersand: in the body that
-- parse_crow_post_data makes of the percent-encoded form, a key has the value of the last field of
-- that name, and no other key is there.
pub find-parse :
    (key : Bytes) (fs : List Field)
    → All IsField fs
    → find key (parse_crow_post_data (encode_form fs)) ≡ last_value key fs none
unfolding parse_crow_post_data last_value add_fields split_on find plain_form
find-parse key [] h = rw (decode-form [] h) refl
find-parse key (f ∷ fs) h =
    ap (λ o. find key (fields_of o)) (decode-form (f ∷ fs) h)
    ∙ ap (λ ps. find key (add_fields ps [])) (split-form f fs h)
    ∙ ap (find key) (add_fields-parts (f ∷ fs) [] h)
    ∙ find-assign_all key (f ∷ fs) []
