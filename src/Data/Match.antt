-- ===== src/Data/Match.antt =====
-- csrc/methods_contentobject.c: _pyndn_cmd_content_matches_interest(), on the parsed forms of both
-- capsules.
use py_ccn.Base.{Bool, not, Option, none, some, Bytes}
use py_ccn.Base.Int.{ℤ}
use py_ccn.Base.Run.{Run, ok, raise, fault, ◌>>=◌, type_error}
use py_ccn.Interest.Parse.{Decoder, ParsedInterest, get_pi}
use py_ccn.Data.{get_pco}
use py_ccn.Data.Packet.{Parsed, Capsule, is_zero}

-- The capsule of an Interest: its buffer and context->pi.
pub record InterestCapsule : Type 0 where
  pub interest : Bytes
  pub context : Option ParsedInterest

-- ndn_content_matches_interest() is `matches`. The Interest is parsed only where the packet is.
module _ {C : Type 0} (parse : Bytes → Option (Parsed × C)) (dec : Decoder)
    (matches : Bytes → Parsed → Bytes → ParsedInterest → ℤ) where
  unfoldable pub match_interest :
      (pi_allocated : Bool) → Bytes → Parsed → InterestCapsule → Run Bool × InterestCapsule
  match_interest pi_allocated content_object pco i =
      let got = get_pi dec pi_allocated i.interest i.context in
      (
        got.0 >>= λ pi. ok (not (is_zero (matches content_object pco i.interest pi))),
        record i { context = got.1 },
      )

  unfoldable pub cmd_content_matches_interest :
      (pco_allocated comps_allocated pi_allocated : Bool)
      → Option (Capsule C)
      → Option InterestCapsule
      → Run Bool × (Option (Capsule C) × Option InterestCapsule)
  unfolding match_interest
  cmd_content_matches_interest pco_allocated comps_allocated pi_allocated none i =
      (raise type_error, (none, i))
  cmd_content_matches_interest pco_allocated comps_allocated pi_allocated (some co) none =
      (raise type_error, (some co, none))
  cmd_content_matches_interest pco_allocated comps_allocated pi_allocated (some co) (some i) =
      let got = get_pco parse pco_allocated comps_allocated co.content_object co.context in
      let after = some (record co { context = got.1 }) in
      elim got.0 [
        | ok pco ↦
            let matched = match_interest pi_allocated co.content_object pco i in
            (matched.0, (after, some matched.1))
        | raise e ↦ (raise e, (after, some i))
        | fault ↦ (fault, (after, some i))
      ]
