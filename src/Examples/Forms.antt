-- ===== src/Examples/Forms.antt =====
-- A submitted form, and an emission that is saved and taken.
use explorer_qwertycoin_org.Base.{true, List, [], ◌∷◌, none, some, codes, same, ◌≡◌, refl, arith}
use explorer_qwertycoin_org.Supply.Text.{parse_u64, parse_u64-to_text}
use explorer_qwertycoin_org.Emission.{Emission, emission_text}
use explorer_qwertycoin_org.Emission.File.{taken, load_current_emission_amount, Round, Status}
use explorer_qwertycoin_org.Emission.File.RoundTrip.{load-emission_text}
use explorer_qwertycoin_org.PostData.{
  find, parse_crow_post_data, search_route, url_decode, read_escape,
}
use explorer_qwertycoin_org.PostData.Forms.{Field, encode_form, encode, last_value, find-parse}
use explorer_qwertycoin_org.PostData.Clean.{HandledForm, search_route-HandledForm}
use explorer_qwertycoin_org.Examples.Daemon.{test_chain, nothing_yet}

abbrev test_form : List Field
test_form =
    (codes "value", codes "a b")
    ∷ (codes "action", codes "push")
    ∷ (codes "value", codes "1+2")
    ∷ []

find-parse_example :
    find (codes "value") (parse_crow_post_data (encode_form test_form))
    ≡ last_value (codes "value") test_form none
find-parse_example = find-parse (codes "value") test_form (omega arith)

encoded : encode (codes "a b=") ≡ codes "a%20b%3D"
unfolding encode
encoded = refl

-- A sign or a space may stand in an escape, and an escape at the end is refused.
odd_escapes : url_decode (codes "%-1% 5%5g") ≡ some (255 ∷ 5 ∷ 5 ∷ [])
unfolding url_decode read_escape same
odd_escapes = refl

cut_escape : url_decode (codes "a%2") ≡ none
unfolding url_decode
cut_escape = refl

search_route-HandledForm_example :
    HandledForm (codes "value=ab-1") (search_route (codes "value=ab-1"))
search_route-HandledForm_example = search_route-HandledForm (codes "value=ab-1")

abbrev some_emission : Emission
some_emission = record { coinbase = 500; fee = 20; blk_no = 7 }

load-emission_text_example :
    load_current_emission_amount parse_u64 (emission_text some_emission) ≡ taken some_emission
load-emission_text_example =
    load-emission_text parse_u64 parse_u64-to_text some_emission (omega arith)

abbrev at_start : Status
at_start = record {
  total_emission_atomic = nothing_yet;
  current_height = 0;
  file = none;
  is_running = true;
}

abbrev one_round : Round
one_round = record {
  height = 20;
  chain = test_chain;
  disk = record { opens = true; partial = none };
}
