-- ===== src/Name.antt =====
-- csrc/methods_name.c: between the component list of a Python Name and an encoded name.
pub mod Decode
pub mod Encode
pub mod Buffer
pub mod Uri
mod Runs
use py_ccn.Base.{
  ℕ, zero, suc, ◌+◌, ◌-◌, Bool, true, false, Option, none, some, List, [], ◌∷◌, ltb, leb,
  if◌then◌else◌, length, drop, Bytes, read,
}
use py_ccn.Base.Run.{
  Run, ok, raise, fault, ◌>>=◌, ◌>>◌, or_raise, type_error, memory_error, value_error, system_error,
  callee_error,
}
use mathlib.Core.Option.{get_or}
use py_ccn.Wire.{NameLib}
use py_ccn.Objects.{Object, none_object, unicode, bytes, byte_array, number, capsule, other}
use py_ccn.Objects.{CapsuleType}

-- The body of the loop of name_comps_to_ndn(): one item is appended to the name.
unfoldable pub append_item : NameLib → Bytes → Object → Run Bytes
append_item lib cname (unicode (some s)) = or_raise (lib.name_append cname s) memory_error
append_item lib cname (unicode none) = raise value_error
append_item lib cname (bytes b) = or_raise (lib.name_append cname b) memory_error
append_item lib cname (byte_array b) = or_raise (lib.name_append cname b) memory_error
append_item lib cname (number (some s)) = or_raise (lib.name_append cname s) memory_error
append_item lib cname (number none) = raise (callee_error 0)
append_item lib cname _ = raise type_error

unfoldable pub append_items : NameLib → Bytes → List Object → Run Bytes
append_items lib cname [] = ok cname
append_items lib cname (item ∷ items) = do
  cname' ← append_item lib cname item
  append_items lib cname' items

-- none is an argument that is no list. The result is the content of the capsule.
unfoldable pub name_comps_to_ndn : NameLib → Option (List Object) → Run Bytes
name_comps_to_ndn lib none = raise type_error
name_comps_to_ndn lib (some items) = append_items lib lib.name_init items

-- for (h = 2; h < len; h++) if (*(component++) > 127) break;
-- from `component` on, with the rounds that are left; the result is `h` and the new `component`.
unfoldable pub walk_header : (rounds h : ℕ) → Bytes → Run (ℕ × Bytes)
walk_header zero h component = ok (h, component)
walk_header (suc rounds) h [] = fault
walk_header (suc rounds) h (b ∷ component) =
    let rest = walk_header rounds (h + 1) component in if ltb 127 b then ok (h, component) else rest

-- One round of the loop of name_comps_from_ndn(), on the component from `start` to `stop`. A
-- negative size is refused by PyBytes_FromStringAndSize().
unfoldable pub component_at : Bytes → (start stop : ℕ) → Run Bytes
component_at buf start stop = do
  let len = stop - start
  (h, component) ← walk_header (len - 2) 2 (drop (start + 1) buf)
  if leb (h + 1) len then read component 0 (len - 1 - h) else raise system_error

-- With no offset at all, `comp_index->n - 1` is the greatest size_t and the loop leaves the buffer.
unfoldable pub components_at : Bytes → List ℕ → Run (List Bytes)
components_at buf [] = fault
components_at buf (start ∷ []) = ok []
components_at buf (start ∷ stop ∷ rest) = do
  c ← component_at buf start stop
  cs ← components_at buf (stop ∷ rest)
  ok (c ∷ cs)

unfoldable pub name_comps_from_ndn : NameLib → Bytes → Run (List Bytes)
name_comps_from_ndn lib cname = do
  comp_index ← or_raise (lib.name_split cname) type_error
  components_at cname comp_index

-- while (ndn_name_comp_get(..., i, ...) == 0) of the decoder on a buffer. The fuel is the number of
-- offsets: past them there is no component.
unfoldable pub comp_get_loop : NameLib → Bytes → List ℕ → (fuel i : ℕ) → Run (List Bytes)
comp_get_loop lib buf idx zero i = ok []
comp_get_loop lib buf idx (suc fuel) i =
    let rest = comp_get_loop lib buf idx fuel (i + 1) in
    elim (lib.comp_get buf idx i) [
      | none ↦ ok []
      | some (offset, size) ↦ do c ← read buf offset size; cs ← rest; ok (c ∷ cs)
    ]

-- The result of ndn_name_split() is not looked at; `left` is the index that a failure leaves.
unfoldable pub name_comps_from_buffer : NameLib → (left : List ℕ) → Bytes → Run (List Bytes)
name_comps_from_buffer lib left buf =
    let idx = get_or (lib.name_split buf) left in comp_get_loop lib buf idx (length idx) 0

-- _pyndn_cmd_name_comps_from_ndn()
unfoldable pub cmd_name_comps_from_ndn : NameLib → Object → Run (List Bytes)
cmd_name_comps_from_ndn lib (capsule CapsuleType.name cname) = name_comps_from_ndn lib cname
cmd_name_comps_from_ndn lib _ = raise type_error

-- _pyndn_cmd_compare_names(), with ndn_compare_names() as an argument.
unfoldable pub cmd_compare_names :
    {A : Type 0} → (Bytes → Bytes → A) → (name1 name2 : Object) → Run A
cmd_compare_names compare (capsule CapsuleType.name a) (capsule CapsuleType.name b) =
    ok (compare a b)
cmd_compare_names compare _ _ = raise type_error

-- Name_obj_to_ndn(), on what the attribute "components" gives.
unfoldable pub name_obj_to_ndn : NameLib → Run (Option (List Object)) → Run Bytes
unfolding name_comps_to_ndn
name_obj_to_ndn lib components = do comps ← components; name_comps_to_ndn lib comps

-- Name_obj_from_ndn(): the components of the new Name.
unfoldable pub name_obj_from_ndn : NameLib → Bytes → Run (List Bytes)
name_obj_from_ndn lib cname = do comps ← name_comps_from_ndn lib cname; ok comps
