-- ===== src/Ndnb/Numbers.antt =====
-- The numbers of an encoded object, and the elements that a decoder passes over as a whole.
use py_ccn.Base.{
  ℕ, ◌-◌, ◌≡◌, ◌≢◌, refl, ap, ◌∙◌, true, Option, none, some, [], ◌++◌, append_assoc, Bytes, length,
  length-append, take-length, read, read-middle, arith,
}
use py_ccn.Base.Int.{ℤ, pos}
use py_ccn.Base.Run.{ok}
use py_ccn.Ndnb.{Dtag, Encoder, Appends, BufDecoder, Decodes, Fits, be_value}
use py_ccn.Ndnb.Fields.{optional_bytes, On, Lacks, moved}

abbrev pub optional_number : {enc : Encoder} → Appends enc → Dtag → Option ℕ → Bytes
optional_number law t none = []
optional_number law t (some n) = law.putf_bytes t (pos n)

-- The value of an optional binary number.
abbrev pub binary_value : ℕ → Option Bytes → ℤ
binary_value default none = pos default
binary_value default (some b) = pos (be_value 0 b)

abbrev pub OptionFits : (least most : ℕ) → Option Bytes → Type 0
OptionFits least most none = Unit {0}
OptionFits least most (some b) = Fits least (some most) (length b)

module _ {D : Type 0} {enc : Encoder} {law : Appends enc} {dec : BufDecoder D}
    (reads : Decodes enc law dec) where
  pub Lacks-number :
      (t u : Dtag) (n : Option ℕ) (rest : Bytes)
      → t ≢ u
      → Lacks reads t rest
      → Lacks reads t (optional_number law u n ++ rest)
  Lacks-number t u none rest ne lacks = lacks
  Lacks-number t u (some n) rest ne lacks = λ front d at.
      reads.match-other t u (reads.putf_tail (pos n) ++ rest) ne at (
        ap (λ x. x ++ rest) (reads.putf_layout u (pos n))
        ∙ append_assoc (law.tt_bytes u) (reads.putf_tail (pos n)) rest)

  pub binary-On :
      (t : Dtag) (b : Option Bytes) (least most default : ℕ) (rest : Bytes) {buf : Bytes} {d : D}
      → OptionFits least most b
      → Lacks reads t rest
      → On reads buf (optional_bytes law t b ++ rest) d
      → (d' : D) × (dec.optional_binary d t least most default ≡ (binary_value default b, d'))
        × On reads buf rest d'
  binary-On t none least most default rest fits lacks on =
      let (d', e, at') = reads.binary-absent t least most default (lacks on.front _ on.at) on.at in
      (d', e, record { front = on.front; at = at'; whole = on.whole })
  binary-On t (some b) least most default rest fits lacks on =
      let (d', e, at') = reads.binary-present t b least most default rest fits on.at refl in
      (d', e, moved reads (law.blob_bytes t b) on.front on.whole refl at')

  pub number-On :
      (t : Dtag) (n : Option ℕ) (rest : Bytes) {buf : Bytes} {d : D}
      → Lacks reads t rest
      → On reads buf (optional_number law t n ++ rest) d
      → (d' : D) × (dec.optional_number d t ≡ (n, d')) × On reads buf rest d'
  number-On t none rest lacks on =
      let (d', e, at') = reads.number-absent t (lacks on.front _ on.at) on.at in
      (d', e, record { front = on.front; at = at'; whole = on.whole })
  number-On t (some n) rest lacks on =
      let (d', e, at') = reads.number-present t n rest on.at refl in
      (d', e, moved reads (law.putf_bytes t (pos n)) on.front on.whole refl at')

  -- An element that is passed over, and then copied out of the buffer.
  pub past-On :
      (e : Bytes) (rest : Bytes) {buf : Bytes} {d : D}
      → reads.IsElement e
      → On reads buf (e ++ rest) d
      → (d' : D) × (dec.advance_past_element d ≡ (true, d'))
        × (dec.token_index d' - dec.token_index d ≡ length e)
        × (read buf (dec.token_index d) (length e) ≡ ok e)
        × On reads buf rest d'
  past-On e rest {buf} {d} is on =
      let (d', p, at') = reads.past-At e rest is on.at refl in
      let start = reads.token_index-At on.at in
      let size : dec.token_index d' - dec.token_index d ≡ length e =
        omega (arith, start, reads.token_index-At at', length-append on.front e) in
      let copy : read buf (dec.token_index d) (length e) ≡ ok e =
        rw on.whole (read-middle on.front e rest _ (length e) start (omega arith))
        ∙ ap ok (take-length e) in
      (d', p, size, copy, moved reads e on.front on.whole refl at')
