-- ===== src/Interest/Runs.antt =====
-- Runs of csrc/methods_interest.c in the small format of Ndnb/Instance.
use py_ccn.Base.{
  ℕ, ◌≤◌, ◌≡◌, refl, false, true, none, some, List, [], ◌∷◌, ◌++◌, map, length, arith,
}
use py_ccn.Base.Run.{fault, ok}
use py_ccn.Wire.Instance.{unary, unary_lib, unary_laws, length-unary}
use py_ccn.Ndnb.Instance.{small, small_laws}
use py_ccn.Objects.{Object, unicode, bytes}
use py_ccn.Name.{name_obj_to_ndn}
use py_ccn.Name.Encode.{Spells, item, end, item_bytes}
use py_ccn.Interest
use py_ccn.Interest.Encode
use py_ccn.Interest.Exclude
use py_ccn.Interest.Parse
use py_ccn.Interest.Layout.{interest_bytes}
use py_ccn.Interest.RoundTrip
use py_ccn.Interest.Small.{small_decoder, small-Parses}

-- /a/bc with a lifetime of 4097 s and 1/2^13 s, of which 1 s comes back.
abbrev sent : RoundTrip.Sent
sent = record {
  comps = (97 ∷ []) ∷ (98 ∷ 99 ∷ []) ∷ [];
  min_suffix = none;
  max_suffix = some 3;
  digest = some (7 ∷ 7 ∷ []);
  exclude = Interest.value (1 ∷ []);
  child_selector = some 1;
  answer_origin_kind = none;
  scope = some 2;
  lifetime = some (Interest.finite false 33562625 13);
  nonce = none;
}

abbrev items : List Object
items = unicode (some (97 ∷ [])) ∷ bytes (98 ∷ 99 ∷ []) ∷ []

items-Spells : Spells items sent.comps
unfolding item_bytes
items-Spells = item refl (item refl end)

abbrev sent_bytes : List ℕ
sent_bytes = interest_bytes small_laws unary (RoundTrip.fields_of sent)

interest_obj-round_trip_example :
    (Interest.interest_obj_to_ndn small (record (Encode.obj_of (RoundTrip.values_of unary sent)) {
      name = Interest.value (name_obj_to_ndn unary_lib (ok (some items)));
    })
      ≡ ok sent_bytes)
    × ((Parse.interest_obj_from_ndn small_decoder unary_lib true sent_bytes none).0
        ≡ ok (record {
          name = (97 ∷ []) ∷ (98 ∷ 99 ∷ []) ∷ [];
          min_suffix = none;
          max_suffix = some 3;
          digest = some (7 ∷ 7 ∷ []);
          child_selector = some 1;
          answer_origin_kind = none;
          scope = some 2;
          lifetime = some (Interest.finite false 4096 12);
          nonce = none;
        }))
unfolding Interest.ticks
interest_obj-round_trip_example =
    RoundTrip.interest_obj-round_trip small_laws unary small-Parses unary_lib unary_laws sent
      items-Spells (λ e. cc) (tt, omega arith, omega arith, tt, omega arith) (omega arith) refl

-- /ab, Any, /c/d
abbrev excluded : List Exclude.Excluded
excluded =
    Exclude.by_name ((97 ∷ 98 ∷ []) ∷ [])
    ∷ Exclude.by_any
    ∷ Exclude.by_name ((99 ∷ []) ∷ (100 ∷ []) ∷ [])
    ∷ []

unary-long : (n : ℕ) → 1 ≤ length (unary n)
unary-long n = omega (arith, length-unary n)

exclusion_filter_names_to_ndn-item_of_example :
    (Exclude.exclusion_filter_names_to_ndn small
        (some (map (Exclude.item_of small small_laws unary) excluded))
      ≡ ok (Exclude.filter_bytes small small_laws unary excluded))
    × (Exclude.exclusion_filter_names_to_ndn small (
          some (
            map (Exclude.item_of small small_laws unary) excluded
            ++ (Exclude.item_of small small_laws unary (Exclude.by_name []) ∷ [])))
        ≡ fault)
exclusion_filter_names_to_ndn-item_of_example =
    Exclude.exclusion_filter_names_to_ndn-item_of small small_laws unary unary-long excluded []
      (omega arith, (omega arith, tt))

-- 0.1 s is 409 whole units; below zero only what has no whole unit can be converted.
tenth : Interest.ticks (Interest.finite false 3602879701896397 55) ≡ 409
unfolding Interest.ticks
tenth = refl

below_zero : Interest.is_defined (Interest.finite true 1 12) ≡ false
unfolding Interest.is_defined
below_zero = refl
