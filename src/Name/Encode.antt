-- ===== src/Name/Encode.antt =====
-- name_comps_to_ndn(): which lists of items it takes, and what it makes of them.
use py_ccn.Base.{
  ℕ, ◌≡◌, refl, ap, ◌∙◌, Option, none, some, List, [], ◌∷◌, ◌++◌, append_assoc, append-nil, arith,
  Bytes,
}
use py_ccn.Base.Run.{ok, raise, Exception, value_error, type_error, callee_error, ◌>>=◌}
use py_ccn.Wire.{encode_name, NameLib, NameLaws}
use py_ccn.Objects.{Object, none_object, unicode, bytes, byte_array, number}
use py_ccn.Name.{append_item, append_items, name_comps_to_ndn, name_comps_from_ndn}
use py_ccn.Name.Decode.{name_comps_from_ndn-encode}

-- The bytes that an item stands for, if it is text, bytes or a number.
unfoldable pub item_bytes : Object → Option Bytes
item_bytes (unicode s) = s
item_bytes (bytes b) = some b
item_bytes (byte_array b) = some b
item_bytes (number s) = s
item_bytes _ = none

-- Every item in turn stands for the component at its place.
pub data Spells : List Object → List Bytes → Type 0 where
  end : Spells [] []
  item :
      {o : Object} {b : Bytes} {os : List Object} {bs : List Bytes}
      → item_bytes o ≡ some b
      → Spells os bs
      → Spells (o ∷ os) (b ∷ bs)

-- What an item raises that stands for nothing.
unfoldable pub item_error : Object → Exception
item_error (unicode _) = value_error
item_error (number _) = callee_error 0
item_error _ = type_error

-- Some item stands for nothing, and the first such item raises `e`.
pub data Stops (e : Exception) : List Object → Type 0 where
  stop : {o : Object} {os : List Object} → item_bytes o ≡ none → e ≡ item_error o → Stops e (o ∷ os)
  later :
      {o : Object} {b : Bytes} {os : List Object}
      → item_bytes o ≡ some b
      → Stops e os
      → Stops e (o ∷ os)

module _ (header : ℕ → Bytes) (lib : NameLib) (laws : NameLaws header lib) where
  append_item-encode :
      (cs : List Bytes) (o : Object) (b : Bytes)
      → item_bytes o ≡ some b
      → append_item lib (encode_name header cs) o ≡ ok (encode_name header (cs ++ (b ∷ [])))
  unfolding append_item item_bytes
  append_item-encode cs (unicode none) b e = cc
  append_item-encode cs (unicode (some s)) b e = ground (arith, e, laws.append-encode cs b)
  append_item-encode cs (bytes s) b e = ground (arith, e, laws.append-encode cs b)
  append_item-encode cs (byte_array s) b e = ground (arith, e, laws.append-encode cs b)
  append_item-encode cs (number none) b e = cc
  append_item-encode cs (number (some s)) b e = ground (arith, e, laws.append-encode cs b)
  append_item-encode cs _ b e = cc

  append_items-encode :
      (cs : List Bytes) {os : List Object} {bs : List Bytes}
      → Spells os bs
      → append_items lib (encode_name header cs) os ≡ ok (encode_name header (cs ++ bs))
  unfolding append_items
  append_items-encode cs end = rw append-nil
  append_items-encode cs (item {o} {b} {bs} e s) =
      rw (append_item-encode cs o b e, append_items)
        (append_items-encode (cs ++ (b ∷ [])) s
          ∙ ap (λ r. ok (encode_name header r)) (append_assoc cs (b ∷ []) bs))

  append_item-raise :
      (cname : Bytes) (o : Object)
      → item_bytes o ≡ none
      → append_item lib cname o ≡ raise (item_error o)
  unfolding append_item item_bytes item_error
  append_item-raise cname (unicode none) e = refl
  append_item-raise cname (unicode (some s)) e = cc
  append_item-raise cname (bytes b) e = cc
  append_item-raise cname (byte_array b) e = cc
  append_item-raise cname (number none) e = refl
  append_item-raise cname (number (some b)) e = cc
  append_item-raise cname none_object e = refl
  append_item-raise cname _ e = refl

  append_items-raise :
      (x : Exception) (cs : List Bytes) {os : List Object}
      → Stops x os
      → append_items lib (encode_name header cs) os ≡ raise x
  unfolding append_items
  append_items-raise x cs (stop {o} e is) = rw (append_item-raise (encode_name header cs) o e, is)
  append_items-raise x cs (later {o} {b} e s) =
      rw (append_item-encode cs o b e, append_items) (append_items-raise x (cs ++ (b ∷ [])) s)

  -- A list of items that spell components becomes the name of these components, and the decoder
  -- gives them back.
  pub name_comps-round_trip :
      {os : List Object} {cs : List Bytes}
      → Spells os cs
      → (name_comps_to_ndn lib (some os) ≡ ok (encode_name header cs))
        × ((name_comps_to_ndn lib (some os) >>= name_comps_from_ndn lib) ≡ ok cs)
  unfolding name_comps_to_ndn
  name_comps-round_trip {os} {cs} s =
      let made = ap (λ n. append_items lib n os) laws.init-encode ∙ append_items-encode [] s in
      (made, rw made (name_comps_from_ndn-encode header lib laws cs))

  -- A list with another item raises what the first such item raises, and no name is made.
  pub name_comps_to_ndn-raise :
      (x : Exception) {os : List Object} → Stops x os → name_comps_to_ndn lib (some os) ≡ raise x
  unfolding name_comps_to_ndn
  name_comps_to_ndn-raise x {os} s =
      ap (λ n. append_items lib n os) laws.init-encode ∙ append_items-raise x [] s
