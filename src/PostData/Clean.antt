-- ===== src/PostData/Clean.antt =====
-- What texts the two form routes of main.cpp hand on.
use explorer_qwertycoin_org.Base.{
  ◌≤◌, ◌<◌, true, false, ◌||◌, [], ◌∷◌, Option, none, some, Bytes, codes, same, is_empty, ltb,
  length, ◌≡◌, refl, arith, All, if-elim, take, length-take,
}
use explorer_qwertycoin_org.PostData.{
  is_good, remove_bad_chars, find, parse_crow_post_data, SearchRoute, too_large, bad_request,
  searched, by_value, search_route, PushRoute, not_provided, checked, pushed, neither, by_action,
  by_fields, check_and_push,
}

-- Letters, digits, +, / and = only.
abbrev pub IsClean : Bytes → Type 0
IsClean = All (λ c. is_good c ≡ true)

remove_bad_chars-IsClean : (s : Bytes) → IsClean (remove_bad_chars s)
unfolding remove_bad_chars
remove_bad_chars-IsClean [] = tt
remove_bad_chars-IsClean (c ∷ s) =
    if-elim IsClean (is_good c) {x = c ∷ remove_bad_chars s} {y = remove_bad_chars s}
      (λ good. (good, remove_bad_chars-IsClean s)) (λ bad. remove_bad_chars-IsClean s)

length-remove_bad_chars : (s : Bytes) → length (remove_bad_chars s) ≤ length s
unfolding remove_bad_chars
length-remove_bad_chars [] = omega arith
length-remove_bad_chars (c ∷ s) = ground (arith, length-remove_bad_chars s)

-- What /search does with a request: a text that is searched is of a request of at most 4096 bytes,
-- has at most 128 characters, and is what is left of the value of the field of that name.
abbrev pub HandledForm : Bytes → SearchRoute → Type 0
HandledForm body too_large = 4096 < length body
HandledForm body (bad_request s) = IsClean s × (length s ≤ 128)
HandledForm body (searched s) =
    IsClean s
    × (length s ≤ 128)
    × (length body ≤ 4096)
    × ((value : Bytes) × (find (codes "value") (parse_crow_post_data body) ≡ some value)
        × (s ≡ remove_bad_chars value)
        × (is_empty value ≡ false))

by_value-HandledForm :
    (body : Bytes) (o : Option Bytes)
    → length body ≤ 4096
    → find (codes "value") (parse_crow_post_data body) ≡ o
    → HandledForm body (by_value o)
by_value-HandledForm body none small e = (tt, omega arith)
by_value-HandledForm body (some value) small e =
    if-elim (HandledForm body) (is_empty value || ltb 128 (length value))
      (λ bad. (
        remove_bad_chars-IsClean (take 128 value),
        omega (arith, length-remove_bad_chars (take 128 value), length-take {0} 128 value),
      ))
      (λ good. (
        remove_bad_chars-IsClean value,
        ground (arith, good, length-remove_bad_chars value),
        small,
        (value, e, refl, ground (arith, good)),
      ))

-- /search refuses a request of more than 4096 bytes; it searches only a text that is what is left of
-- the value of the form's last field named "value", of letters, digits, +, / and = and of at most
-- 128 characters; and what it shows of a request that it refuses is such a text too.
pub search_route-HandledForm : (body : Bytes) → HandledForm body (search_route body)
unfolding search_route
search_route-HandledForm body =
    if-elim (HandledForm body) (ltb 4096 (length body)) (λ large. ground (arith, large))
      (λ small.
        by_value-HandledForm body (find (codes "value") (parse_crow_post_data body))
          (ground (arith, small)) refl)

-- What /checkandpush hands to a page is cleaned data of the request.
abbrev pub IsPushed : PushRoute → Type 0
IsPushed not_provided = Unit {0}
IsPushed (checked s) = IsClean s
IsPushed (pushed s) = IsClean s
IsPushed neither = Unit {0}

by_action-IsPushed : (raw action : Bytes) → IsPushed (by_action (remove_bad_chars raw) action)
by_action-IsPushed raw action =
    if-elim IsPushed (same action (codes "check")) (λ e. remove_bad_chars-IsClean raw)
      (λ e.
        if-elim IsPushed (same action (codes "push")) (λ e'. remove_bad_chars-IsClean raw)
          (λ e'. tt))

by_fields-IsPushed : (raw action : Option Bytes) → IsPushed (by_fields raw action)
by_fields-IsPushed none action = tt
by_fields-IsPushed (some raw) none = tt
by_fields-IsPushed (some raw) (some action) = by_action-IsPushed raw (remove_bad_chars action)

pub check_and_push-IsPushed : (body : Bytes) → IsPushed (check_and_push body)
unfolding check_and_push
check_and_push-IsPushed body = by_fields-IsPushed _ _
