-- ===== src/Interest/Stale.antt =====
-- The lifetime of an Interest there and back, and what is left of an Interest that does not parse.
use py_ccn.Base.{ℕ, ◌%◌, ◌^◌, ◌≡◌, refl, true, false, none, arith, Bytes}
use py_ccn.Base.Run.{raise, ndn_interest_error}
use py_ccn.Wire.{NameLib}
use py_ccn.Interest.{lifetime_bytes}
use py_ccn.Interest.Parse.{
  Decoder, lifetime_from, interest_from_parsed, interest_obj_from_ndn, get_pi,
}

-- A lifetime comes back as it was, in units of 1/4096 s, up to multiples of 2^24 of them: from 4096 s
-- on it does not come back.
pub lifetime_from-lifetime_bytes : (n : ℕ) → lifetime_from 0 (lifetime_bytes n) ≡ n % 2 ^ 24
unfolding lifetime_from lifetime_bytes
lifetime_from-lifetime_bytes n = omega arith

-- Where an encoding does not parse, the first call raises the parse error. The struct that the parser
-- left stays in the capsule, and a second call takes the attributes out of it.
pub interest_obj_from_ndn-twice :
    (dec : Decoder) (lib : NameLib) (interest : Bytes)
    → (dec.parse_interest interest).0 ≡ false
    → ((interest_obj_from_ndn dec lib true interest none).0 ≡ raise ndn_interest_error)
      × ((interest_obj_from_ndn dec lib true interest
            (interest_obj_from_ndn dec lib true interest none).1).0
          ≡ interest_from_parsed dec interest (dec.parse_interest interest).1 lib)
unfolding interest_obj_from_ndn get_pi
interest_obj_from_ndn-twice dec lib interest h = (rw h refl, refl)
