-- ===== src/Data/Cache.antt =====
-- parse_Data(), _pyndn_content_object_get_pco() and _pyndn_content_object_get_comps() over any calls
-- on one capsule.
use py_ccn.Base.{
  ◌≡◌, refl, Bool, true, false, Option, some, List, [], ◌∷◌, inl, inr, arith, Bytes, Option-cases,
}
use py_ccn.Base.Run.{ok, ◌>>=◌, or_raise, ndn_data_error}
use py_ccn.Data.{Context, empty, parse_data, get_pco, get_comps}

module _ {P C : Type 0} (parse : Bytes → Option (P × C)) (content_object : Bytes) where
  -- The context is empty, or it is the result of parsing.
  pub data Coherent : Context P C → Type 0 where
    unparsed : Coherent empty
    parsed :
        (p : P) (c : C)
        → parse content_object ≡ some (p, c)
        → Coherent (record { pco = some p; comps = some c })

  -- A call that asks for the parsed form, with the memory that it finds.
  pub data Call : Type 0 where
    pco_call comps_call : (pco_allocated comps_allocated : Bool) → Call

  unfoldable pub after : Call → Context P C → Context P C
  unfolding get_pco get_comps
  after (pco_call a b) context = (get_pco parse a b content_object context).1
  after (comps_call a b) context = (get_comps parse a b content_object context).1

  unfoldable pub after_all : List Call → Context P C → Context P C
  unfolding after
  after_all [] context = context
  after_all (call ∷ calls) context = after_all calls (after call context)

  parse_data-Coherent :
      (a b : Bool) (context : Context P C)
      → Coherent (parse_data parse a b content_object context).1
  unfolding parse_data
  parse_data-Coherent false b context = unparsed
  parse_data-Coherent true false context = unparsed
  parse_data-Coherent true true context = elim (Option-cases (parse content_object)) [
    | inl e ↦ rw (e, parse_data) unparsed
    | inr ((p, c), e) ↦ rw (e, parse_data) (parsed p c e)
  ]

  after-Coherent :
      (call : Call) (context : Context P C) → Coherent context → Coherent (after call context)
  unfolding after get_pco get_comps
  after-Coherent (pco_call a b) _ unparsed = parse_data-Coherent a b empty
  after-Coherent (pco_call a b) _ (parsed p c e) = parsed p c e
  after-Coherent (comps_call a b) _ unparsed = parse_data-Coherent a b empty
  after-Coherent (comps_call a b) _ (parsed p c e) = parsed p c e

  after_all-Coherent :
      (calls : List Call) (context : Context P C)
      → Coherent context
      → Coherent (after_all calls context)
  unfolding after_all
  after_all-Coherent [] context co = co
  after_all-Coherent (call ∷ calls) context co =
      after_all-Coherent calls (after call context) (after-Coherent call context co)

  pub get_pco-Coherent :
      (context : Context P C)
      → Coherent context
      → (get_pco parse true true content_object context).0
        ≡ (or_raise (parse content_object) ndn_data_error >>= λ pc. ok pc.0)
  unfolding get_pco parse_data
  get_pco-Coherent _ unparsed = ground arith
  get_pco-Coherent _ (parsed p c e) = rw e refl

  get_comps-Coherent :
      (context : Context P C)
      → Coherent context
      → (get_comps parse true true content_object context).0
        ≡ (or_raise (parse content_object) ndn_data_error >>= λ pc. ok pc.1)
  unfolding get_comps parse_data
  get_comps-Coherent _ unparsed = ground arith
  get_comps-Coherent _ (parsed p c e) = rw e refl

  -- After any calls on a fresh capsule, also calls that ran out of memory or met a packet that does not
  -- parse, the next calls that find memory give the two halves of the parsed packet, or the parse
  -- error where it does not parse.
  pub get_pco-get_comps :
      (calls : List Call)
      → ((get_pco parse true true content_object (after_all calls empty)).0
          ≡ (or_raise (parse content_object) ndn_data_error >>= λ pc. ok pc.0))
        × ((get_comps parse true true content_object (after_all calls empty)).0
            ≡ (or_raise (parse content_object) ndn_data_error >>= λ pc. ok pc.1))
  get_pco-get_comps calls =
      let co = after_all-Coherent calls empty unparsed in
      (get_pco-Coherent (after_all calls empty) co, get_comps-Coherent (after_all calls empty) co)
