-- ===== src/Data.antt =====
-- csrc/methods_contentobject.c: the parsed form that a capsule of a Data packet carries along,
-- parse_Data() and the functions that give it out.
pub mod Cache
pub mod RoundTrip
mod Signer
pub mod Packet
pub mod Decode
pub mod Sample
pub mod Match
pub mod Encode
mod Runs
use py_ccn.Base.{Bool, true, false, Option, none, some, Bytes}
use py_ccn.Base.Run.{Run, ok, raise, fault, ◌>>=◌, or_raise, memory_error, ndn_data_error}

-- struct content_object_data, with what its pointers refer to: a struct ndn_parsed_Data and an
-- index of the name's components.
pub record Context (P C : Type 0) : Type 0 where
  pub pco : Option P
  pub comps : Option C

module _ {P C : Type 0} where
  abbrev pub empty : Context P C
  empty = record { pco = none; comps = none }

  -- ndn_parse_Data() of a buffer is `parse`; the two tests say whether calloc() and
  -- ndn_indexbuf_create() give memory. The result, and the context afterwards.
  unfoldable pub parse_data :
      (parse : Bytes → Option (P × C))
      → (pco_allocated comps_allocated : Bool) → Bytes
      → Context P C
      → Run (Unit {0}) × Context P C
  parse_data parse false comps_allocated content_object context = (raise memory_error, empty)
  parse_data parse true false content_object context = (raise memory_error, empty)
  parse_data parse true true content_object context = elim (parse content_object) [
    | none ↦ (raise ndn_data_error, empty)
    | some (p, c) ↦ (ok tt, record { pco = some p; comps = some c })
  ]

  -- assert(context->pco) is the fault.
  unfoldable pub get_pco :
      (parse : Bytes → Option (P × C))
      → (pco_allocated comps_allocated : Bool) → Bytes
      → Context P C
      → Run P × Context P C
  unfolding parse_data
  get_pco parse pco_allocated comps_allocated content_object context =
      let parsed = parse_data parse pco_allocated comps_allocated content_object context in
      elim context.pco [
        | some p ↦ (ok p, context)
        | none ↦ (parsed.0 >>= λ _. elim parsed.1.pco [ none ↦ fault | some p ↦ ok p ], parsed.1)
      ]

  unfoldable pub get_comps :
      (parse : Bytes → Option (P × C))
      → (pco_allocated comps_allocated : Bool) → Bytes
      → Context P C
      → Run C × Context P C
  unfolding parse_data
  get_comps parse pco_allocated comps_allocated content_object context =
      let parsed = parse_data parse pco_allocated comps_allocated content_object context in
      elim context.comps [
        | some c ↦ (ok c, context)
        | none ↦ (parsed.0 >>= λ _. elim parsed.1.comps [ none ↦ fault | some c ↦ ok c ], parsed.1)
      ]

  -- _pyndn_content_object_set_pco() and _pyndn_content_object_set_comps(), with whether they give an
  -- old pointer to free().
  unfoldable pub set_pco : Option P → Context P C → Context P C × Bool
  set_pco pco context =
      (record context { pco = pco }, elim context.pco [ none ↦ false | some p ↦ true ])

  unfoldable pub set_comps : Option C → Context P C → Context P C × Bool
  set_comps comps context =
      (record context { comps = comps }, elim context.comps [ none ↦ false | some c ↦ true ])
