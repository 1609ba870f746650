-- ===== src/Pyndn/Types.antt =====
-- _pyndn_get_type() of csrc/pyndn.c: the Python classes of the package, each looked up when it is first
-- asked for and kept from then on.
use Prim.Native.String.{String}
use py_ccn.Base.{
  ℕ, ◌≡◌, ◌≢◌, refl, Bool, true, false, Option, none, some, List, [], ◌∷◌, ◌==◌, if◌then◌else◌,
  get_elem?,
}
use py_ccn.Base.Run.{Run, ok, raise, fault, ◌>>=◌, ◌>>◌, assert, or_raise, system_error}

-- enum e_class_type; data_packet is Data.
pub data ClassType : Type 0 where
  face closure data_packet interest key key_locator name signature signed_info : ClassType
  signing_params upcall_info : ClassType

abbrev pub to_int : ClassType → ℕ
to_int face = 0
to_int closure = 1
to_int data_packet = 2
to_int interest = 3
to_int key = 4
to_int key_locator = 5
to_int name = 6
to_int signature = 7
to_int signed_info = 8
to_int signing_params = 9
to_int upcall_info = 10

abbrev pub class_type_count : ℕ
class_type_count = 11

-- An entry of the table: its type, its module and its class.
pub record Entry : Type 0 where
  pub type : ℕ
  pub module_name : Option String
  pub class_name : String

abbrev pub entry : ClassType → String → String → Entry
entry t m c = record { type = to_int t; module_name = some m; class_name = c }

-- The last entry ends the table, and has no names.
abbrev pub modules : List Entry
modules =
    entry face "ndn.Face" "Face"
    ∷ entry closure "ndn.Closure" "Closure"
    ∷ entry data_packet "ndn.Data" "Data"
    ∷ entry interest "ndn.Interest" "Interest"
    ∷ entry key "ndn.Key" "Key"
    ∷ entry key_locator "ndn.KeyLocator" "KeyLocator"
    ∷ entry name "ndn.Name" "Name"
    ∷ entry signature "ndn.Signature" "Signature"
    ∷ entry signed_info "ndn.SignedInfo" "SignedInfo"
    ∷ entry upcall_info "ndn.Closure" "UpcallInfo"
    ∷ record { type = class_type_count; module_name = none; class_name = "" }
    ∷ []

-- class_type[] of struct pyndn_state; `C` is a Python class.
abbrev pub Classes : Type 0 → Type 0
Classes C = ℕ → Option C

abbrev pub no_classes : {C : Type 0} → Classes C
no_classes t = none

abbrev pub keep : {C : Type 0} → Classes C → ℕ → C → Classes C
keep classes t c u = if t == u then some c else classes u

-- What Python has when a class is asked for: PyImport_ImportModule() and the names in a module.
pub record Python (C : Type 0) : Type 1 where
  pub Module : Type 0
  pub import_module : String → Run Module
  pub get_item : Module → String → Option C

-- An index past the table is a read outside of it; `asserts` tells a build with assertions.
unfoldable pub entry_of : (asserts : Bool) → ClassType → Run Entry
entry_of asserts t = do
  p ← elim (get_elem? modules (to_int t)) [ some p ↦ ok p | none ↦ fault ]
  if asserts then assert (p.type == to_int t) else ok tt
  ok p

-- What a look-up leaves in the table of classes.
unfoldable pub kept : {C : Type 0} → Classes C → ClassType → Run C → Classes C
kept classes t (ok c) = keep classes (to_int t) c
kept classes t (raise e) = classes
kept classes t fault = classes

module _ {C : Type 0} (python : Python C) where
  -- A name that is a null pointer is a fault.
  unfoldable pub look_up : Entry → Run C
  look_up p = elim p.module_name [
    | none ↦ fault
    | some m ↦ do
      py_module ← python.import_module m
      or_raise (python.get_item py_module p.class_name) system_error
  ]

  -- _pyndn_get_type(), and the classes that are kept afterwards.
  unfoldable pub get_type : (asserts : Bool) → ClassType → Classes C → Run C × Classes C
  unfolding entry_of look_up kept
  get_type asserts t classes = elim (classes (to_int t)) [
    | some c ↦ (entry_of asserts t >>= λ p. ok c, classes)
    | none ↦ let found = entry_of asserts t >>= look_up in (found, kept classes t found)
  ]

-- The classes for which the table has an entry at their place.
abbrev pub IsListed : ClassType → Type 0
IsListed t = (t ≢ signing_params) × (t ≢ upcall_info)

-- Where a class is to be found, by its name in the package.
abbrev pub home : ClassType → String × String
home face = ("ndn.Face", "Face")
home closure = ("ndn.Closure", "Closure")
home data_packet = ("ndn.Data", "Data")
home interest = ("ndn.Interest", "Interest")
home key = ("ndn.Key", "Key")
home key_locator = ("ndn.KeyLocator", "KeyLocator")
home name = ("ndn.Name", "Name")
home signature = ("ndn.Signature", "Signature")
home signed_info = ("ndn.SignedInfo", "SignedInfo")
home signing_params = ("ndn.Data", "SigningParams")
home upcall_info = ("ndn.Closure", "UpcallInfo")

pub entry_of-listed :
    (asserts : Bool) (t : ClassType)
    → IsListed t
    → entry_of asserts t ≡ ok (entry t (home t).0 (home t).1)
unfolding entry_of
entry_of-listed true face h = refl
entry_of-listed false face h = refl
entry_of-listed _ signing_params h = absurd (h.0 refl)
entry_of-listed _ upcall_info h = absurd (h.1 refl)
entry_of-listed true _ h = refl
entry_of-listed false _ h = refl
