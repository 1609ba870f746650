-- ===== src/Interest/Exclude.antt =====
-- csrc/methods_interest.c: the exclusion filter of an Interest, ExclusionFilter_names_to_ndn().
use py_ccn.Base.{
  ℕ, zero, suc, ◌-◌, ◌≤◌, ◌≡◌, refl, ap, ◌∙◌, Bool, true, Option, none, some, List, [], ◌∷◌, ◌++◌,
  append_assoc, append-nil, map, leb, Bytes, length, length-append, take-length, read, read-middle,
  arith,
}
use py_ccn.Base.Int.{ℤ, pos, int_of_long}
use py_ccn.Base.Run.{
  Run, ok, raise, fault, ◌>>=◌, ◌>>◌, guard, assert, or_raise, type_error, memory_error,
  value_error,
}
use py_ccn.Wire.{name_tag, encode_name, encode_comps, encode_comp}
use py_ccn.Ndnb.{exclude, any, Encoder, Appends}

-- An item of the list: whether it is a Name, the long that its type gives, and the bytes of its ndn_data, none where that
-- is no capsule of a name.
pub record Item : Type 0 where
  pub is_name : Bool
  pub type : Run ℤ
  pub ndn_data : Run (Option Bytes)

module _ (enc : Encoder) where
  -- A name is appended without its tag and its closer. A failed assertion is a fault.
  unfoldable pub append_excluded_name : Bytes → Run (Option Bytes) → Run Bytes
  append_excluded_name cb ndn_data = do
    py_o ← ndn_data
    name ← or_raise py_o type_error
    assert (leb 4 (length name))
    comps ← read name 1 (length name - 2)
    or_raise (enc.append_charbuf cb comps) memory_error

  unfoldable pub append_any : Bytes → Run Bytes
  append_any cb = do
    cb ← or_raise (enc.append_tt cb any) memory_error
    or_raise (enc.append_closer cb) memory_error

  unfoldable pub append_typed : Bytes → Run (Option Bytes) → ℤ → Run Bytes
  unfolding append_excluded_name append_any
  append_typed cb ndn_data (pos zero) = append_excluded_name cb ndn_data
  append_typed cb ndn_data (pos (suc zero)) = append_any cb
  append_typed cb ndn_data _ = raise value_error

  -- The body of the loop.
  unfoldable pub append_exclude_item : Bytes → Item → Run Bytes
  unfolding append_typed
  append_exclude_item cb item = do
    guard item.is_name value_error
    type ← item.type
    append_typed cb item.ndn_data (int_of_long type)

  unfoldable pub append_exclude_items : Bytes → List Item → Run Bytes
  append_exclude_items cb [] = ok cb
  append_exclude_items cb (item ∷ items) = do
    cb' ← append_exclude_item cb item
    append_exclude_items cb' items

  -- The command: an argument that is no list is none.
  unfoldable pub exclusion_filter_names_to_ndn : Option (List Item) → Run Bytes
  exclusion_filter_names_to_ndn none = raise type_error
  exclusion_filter_names_to_ndn (some items) = do
    cb ← or_raise (enc.append_tt [] exclude) memory_error
    cb ← append_exclude_items cb items
    or_raise (enc.append_closer cb) memory_error

-- What may be excluded: the components of a name, or all between two of them.
pub data Excluded : Type 0 where
  by_name : List Bytes → Excluded
  by_any : Excluded

module _ (enc : Encoder) (law : Appends enc) (header : ℕ → Bytes) where
  abbrev pub item_of : Excluded → Item
  item_of (by_name cs) = record {
    is_name = true;
    type = ok (pos 0);
    ndn_data = ok (some (encode_name header cs));
  }
  item_of by_any = record { is_name = true; type = ok (pos 1); ndn_data = raise type_error }

  abbrev pub excluded_bytes : Excluded → Bytes
  excluded_bytes (by_name cs) = encode_comps header cs
  excluded_bytes by_any = law.tt_bytes any ++ law.closer_bytes

  abbrev pub all_bytes : List Excluded → Bytes
  all_bytes [] = []
  all_bytes (x ∷ xs) = excluded_bytes x ++ all_bytes xs

  abbrev pub AllNamed : List Excluded → Type 0
  AllNamed [] = Unit {0}
  AllNamed (by_name cs ∷ xs) = (1 ≤ length cs) × AllNamed xs
  AllNamed (by_any ∷ xs) = AllNamed xs

  -- The shortest encoding of a component has a tag, a header and a closer.
  encode_comps-long :
      ((n : ℕ) → 1 ≤ length (header n))
      → (cs : List Bytes) → 1 ≤ length cs
      → 3 ≤ length (encode_comps header cs)
  unfolding encode_comps encode_comp
  encode_comps-long h [] n = absurd (omega arith)
  encode_comps-long h (c ∷ cs) n = omega (
    arith,
    h (length c),
    length-append (encode_comp header c) (encode_comps header cs),
    length-append (header (length c)) (c ++ (0 ∷ [])),
    length-append c (0 ∷ []),
  )

  append_exclude_item-item_of :
      ((n : ℕ) → 1 ≤ length (header n))
      → (x : Excluded) (cb : Bytes) → AllNamed (x ∷ [])
      → append_exclude_item enc cb (item_of x) ≡ ok (cb ++ excluded_bytes x)
  unfolding append_exclude_item append_typed append_any append_excluded_name encode_name
  append_exclude_item-item_of h by_any cb n =
      rw (law.append_tt cb any) (rw (law.append_closer _) (simp append_assoc))
  append_exclude_item-item_of h (by_name cs) cb n =
      let e = encode_comps header cs in
      let long : leb 4 (length (name_tag ∷ (e ++ (0 ∷ [])))) ≡ true =
        ground (arith, encode_comps-long h cs n.0, length-append e (0 ∷ [])) in
      let size : length (name_tag ∷ (e ++ (0 ∷ []))) - 2 ≡ length e =
        omega (arith, length-append e (0 ∷ [])) in
      let comps = read-middle (name_tag ∷ []) e (0 ∷ []) 1 (length e) refl (omega arith) in
      rw (long) (rw (size) (rw (comps) (rw (take-length e) (rw (law.append_charbuf cb e) refl))))

  append_exclude_items-item_of :
      ((n : ℕ) → 1 ≤ length (header n))
      → (xs : List Excluded) (cb : Bytes) → AllNamed xs
      → append_exclude_items enc cb (map item_of xs) ≡ ok (cb ++ all_bytes xs)
  unfolding append_exclude_items
  append_exclude_items-item_of h [] cb n = rw (append-nil cb) refl
  append_exclude_items-item_of h (by_any ∷ xs) cb n =
      rw (append_exclude_item-item_of h by_any cb tt)
        (append_exclude_items-item_of h xs _ n ∙ ap ok (simp append_assoc))
  append_exclude_items-item_of h (by_name cs ∷ xs) cb n =
      rw (append_exclude_item-item_of h (by_name cs) cb (n.0, tt))
        (append_exclude_items-item_of h xs _ n.1 ∙ ap ok (simp append_assoc))

  abbrev pub filter_bytes : List Excluded → Bytes
  filter_bytes xs = law.tt_bytes exclude ++ (all_bytes xs ++ law.closer_bytes)

  empty_name-item_of : (cb : Bytes) → append_exclude_item enc cb (item_of (by_name [])) ≡ fault
  unfolding append_exclude_item append_typed append_excluded_name encode_name encode_comps
  empty_name-item_of cb = refl

  items-empty_name :
      ((n : ℕ) → 1 ≤ length (header n))
      → (xs : List Excluded) (more : List Item) (cb : Bytes) → AllNamed xs
      → append_exclude_items enc cb (map item_of xs ++ (item_of (by_name []) ∷ more)) ≡ fault
  unfolding append_exclude_items
  items-empty_name h [] more cb n = rw (empty_name-item_of cb) refl
  items-empty_name h (by_any ∷ xs) more cb n =
      rw (append_exclude_item-item_of h by_any cb tt) (items-empty_name h xs more _ n)
  items-empty_name h (by_name cs ∷ xs) more cb n =
      rw (append_exclude_item-item_of h (by_name cs) cb (n.0, tt))
        (items-empty_name h xs more _ n.1)

  -- With memory enough, a filter of names with components and of Any is written in order, each name without its tag and
  -- closer, between the tag of the filter and a closer; the first Name without components that comes
  -- behind such items fails an assertion, whatever follows it.
  pub exclusion_filter_names_to_ndn-item_of :
      ((n : ℕ) → 1 ≤ length (header n))
      → (xs : List Excluded) (more : List Item) → AllNamed xs
      → (exclusion_filter_names_to_ndn enc (some (map item_of xs)) ≡ ok (filter_bytes xs))
        × (exclusion_filter_names_to_ndn enc
              (some (map item_of xs ++ (item_of (by_name []) ∷ more)))
            ≡ fault)
  unfolding exclusion_filter_names_to_ndn
  exclusion_filter_names_to_ndn-item_of h xs more n = (
    rw (law.append_tt [] exclude)
        (rw (append_exclude_items-item_of h xs _ n) (rw (law.append_closer _) (simp append_assoc))),
    rw (law.append_tt [] exclude) (rw (items-empty_name h xs more _ n) refl),
  )
