-- ===== src/Name/Runs.antt =====
-- The decoders and the encoder of names at a concrete name.
use py_ccn.Base.{◌≡◌, refl, some, List, [], ◌∷◌, Bytes}
use py_ccn.Base.Run.{ok, ◌>>=◌}
use py_ccn.Wire.{encode_name}
use py_ccn.Wire.Instance.{unary, unary_lib, unary_laws}
use py_ccn.Objects.{Object, unicode, bytes, number}
use py_ccn.Name.{name_comps_to_ndn, name_comps_from_ndn}
use py_ccn.Name.Encode.{Spells, end, item, name_comps-round_trip, item_bytes}

abbrev lamp : Bytes
lamp = b'l' ∷ b'a' ∷ b'm' ∷ b'p' ∷ []

abbrev comps : List Bytes
comps = lamp ∷ [] ∷ (b'7' ∷ []) ∷ []

abbrev items : List Object
items = unicode (some lamp) ∷ bytes [] ∷ number (some (b'7' ∷ [])) ∷ []

items-Spells : Spells items comps
unfolding item_bytes
items-Spells = item refl (item refl (item refl end))

name_comps-round_trip_example :
    (name_comps_to_ndn unary_lib (some items) ≡ ok (encode_name unary comps))
    × ((name_comps_to_ndn unary_lib (some items) >>= name_comps_from_ndn unary_lib) ≡ ok comps)
name_comps-round_trip_example = name_comps-round_trip unary unary_lib unary_laws items-Spells
