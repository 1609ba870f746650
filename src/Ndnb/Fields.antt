-- ===== src/Ndnb/Fields.antt =====
-- One blob of an encoded object, optional or required, as the decoders of the bindings read it: the
-- position, the parse, the position again, and the reference into the buffer.
use py_ccn.Base.{
  ℕ, ◌≤◌, [], ◌≡◌, ◌≢◌, refl, sym, ap, ◌∙◌, true, false, Option, none, some, ◌++◌, append_assoc,
  append-nil, Bytes, length,
}
use py_ccn.Base.Run.{Run, ok, raise, Exception, or_raise, ◌>>=◌}
use py_ccn.Ndnb.{Dtag, Encoder, Appends, BufDecoder, Decodes, Fits}

module _ {D : Type 0} (dec : BufDecoder D) where
  unfoldable pub optional_field : Bytes → D → Dtag → Option Bytes × D
  optional_field buf d t =
      let start = dec.token_index d in
      let d' = dec.optional_blob d t 1 none in (dec.ref_blob t buf start (dec.token_index d'), d')

  unfoldable pub required_field :
      Bytes → D → Dtag → (least : ℕ) → (most : Option ℕ) → (error : Exception) → Run (Bytes × D)
  required_field buf d t least most error =
      let start = dec.token_index d in
      let d' = (dec.required_blob d t least most).1 in
      or_raise (dec.ref_blob t buf start (dec.token_index d')) error >>= λ b. ok (b, d')

abbrev pub optional_bytes : {enc : Encoder} → Appends enc → Dtag → Option Bytes → Bytes
optional_bytes law t none = []
optional_bytes law t (some b) = law.blob_bytes t b

abbrev pub NonEmpty : Option Bytes → Type 0
NonEmpty none = Unit {0}
NonEmpty (some b) = 1 ≤ length b

module _ {D : Type 0} {enc : Encoder} {law : Appends enc} {dec : BufDecoder D}
    (reads : Decodes enc law dec) where
  -- A decoder on a buffer, in front of the tail of it.
  pub record On (buf tail : Bytes) (d : D) : Type 0 where
    pub front : Bytes
    pub at : reads.At front tail d
    pub whole : buf ≡ front ++ tail

  -- The tail does not begin with an element of this kind.
  abbrev pub Lacks : Dtag → Bytes → Type 0
  Lacks t tail = (front : Bytes) (d : D) → reads.At front tail d → dec.match_dtag d t ≡ false

  pub start-On : (buf : Bytes) → On buf buf (dec.start buf)
  start-On buf = record { front = []; at = reads.start-At buf; whole = refl }

  pub moved :
      (x front : Bytes) {buf tail rest : Bytes} {d' : D}
      → buf ≡ front ++ tail
      → tail ≡ x ++ rest
      → reads.At (front ++ x) rest d'
      → On buf rest d'
  moved x front {rest = rest} w e at = record {
    front = front ++ x;
    at = at;
    whole = w ∙ ap (λ y. front ++ y) e ∙ sym (append_assoc front x rest);
  }

  pub match-On :
      (t : Dtag) (rest : Bytes) {buf tail : Bytes} {d : D}
      → On buf tail d
      → tail ≡ law.tt_bytes t ++ rest
      → dec.match_dtag d t ≡ true
  match-On t rest on e = reads.match-same t rest on.at e

  pub advance-On :
      (t : Dtag) (rest : Bytes) {buf tail : Bytes} {d : D}
      → On buf tail d
      → tail ≡ law.tt_bytes t ++ rest
      → On buf rest (dec.advance d)
  advance-On t rest on e =
      moved (law.tt_bytes t) on.front on.whole e (reads.advance-At t rest on.at e)

  pub close-On :
      (rest : Bytes) {buf tail : Bytes} {d : D}
      → On buf tail d
      → tail ≡ law.closer_bytes ++ rest
      → On buf rest (dec.check_close d)
  close-On rest on e =
      moved law.closer_bytes on.front on.whole e (reads.check_close-At rest on.at e)

  pub Lacks-tt : (t u : Dtag) (rest : Bytes) → t ≢ u → Lacks t (law.tt_bytes u ++ rest)
  Lacks-tt t u rest ne front d at = reads.match-other t u rest ne at refl

  pub Lacks-closer : (t : Dtag) (rest : Bytes) → Lacks t (law.closer_bytes ++ rest)
  Lacks-closer t rest front d at = reads.match-closer t rest at refl

  pub Lacks-end : (t : Dtag) → Lacks t law.closer_bytes
  Lacks-end t front d at = reads.match-closer t [] at (sym (append-nil law.closer_bytes))

  pub Lacks-blob : (t u : Dtag) (b rest : Bytes) → t ≢ u → Lacks t (law.blob_bytes u b ++ rest)
  Lacks-blob t u b rest ne front d at = reads.match-other t u (reads.blob_tail b ++ rest) ne at (
      ap (λ x. x ++ rest) (reads.blob_layout u b)
      ∙ append_assoc (law.tt_bytes u) (reads.blob_tail b) rest)

  pub Lacks-optional :
      (t u : Dtag) (b : Option Bytes) (rest : Bytes)
      → t ≢ u
      → Lacks t rest
      → Lacks t (optional_bytes law u b ++ rest)
  Lacks-optional t u none rest ne lacks = lacks
  Lacks-optional t u (some b) rest ne lacks = Lacks-blob t u b rest ne

  absent_field-On :
      (t : Dtag) {buf rest : Bytes} {d : D}
      → Lacks t rest
      → On buf rest d
      → (d' : D) × (optional_field dec buf d t ≡ (none, d')) × On buf rest d'
  unfolding optional_field
  absent_field-On t {buf} {rest} {d} lacks on =
      let at' = reads.optional-absent t 1 none (lacks on.front d on.at) on.at in
      let same : dec.ref_blob t buf (dec.token_index d)
            (dec.token_index (dec.optional_blob d t 1 none))
          ≡ none =
        rw (reads.token_index-At on.at, reads.token_index-At at') (reads.ref-absent t buf _) in
      (
        dec.optional_blob d t 1 none,
        ap (λ r. (r, dec.optional_blob d t 1 none)) same,
        record { front = on.front; at = at'; whole = on.whole },
      )

  -- What a blob refers to once the decoder has passed it.
  ref-On :
      (t : Dtag) (b front rest : Bytes) {buf tail : Bytes} {d d' : D}
      → reads.At front tail d
      → buf ≡ front ++ tail
      → tail ≡ law.blob_bytes t b ++ rest
      → reads.At (front ++ law.blob_bytes t b) rest d'
      → dec.ref_blob t buf (dec.token_index d) (dec.token_index d') ≡ some b
  ref-On t b front rest at w e at' =
      rw (w ∙ ap (λ y. front ++ y) e)
        (reads.ref-present t b front rest _ _ (reads.token_index-At at) (reads.token_index-At at'))

  -- An optional blob is read as what was written, or as nothing.
  pub optional_field-On :
      (t : Dtag) (b : Option Bytes) (rest : Bytes) {buf tail : Bytes} {d : D}
      → NonEmpty b
      → Lacks t rest
      → On buf tail d
      → tail ≡ optional_bytes law t b ++ rest
      → (d' : D) × (optional_field dec buf d t ≡ (b, d')) × On buf rest d'
  unfolding optional_field
  optional_field-On t none rest {buf} {tail} {d} n lacks on e =
      absent_field-On t {rest = rest} lacks
        (record { front = on.front; at = rw (← e) on.at; whole = rw (← e) on.whole })
  optional_field-On t (some b) rest {buf} {tail} {d} n lacks on e =
      let at' = reads.optional-present t b 1 none rest n on.at e in
      (
        dec.optional_blob d t 1 none,
        ap (λ r. (r, dec.optional_blob d t 1 none)) (ref-On t b on.front rest on.at on.whole e at'),
        moved (law.blob_bytes t b) on.front on.whole e at',
      )

  pub required_field-On :
      (t : Dtag) (b rest : Bytes) (least : ℕ) (most : Option ℕ) (x : Exception)
      → {buf tail : Bytes} {d : D} → Fits least most (length b)
      → On buf tail d
      → tail ≡ law.blob_bytes t b ++ rest
      → (d' : D) × (required_field dec buf d t least most x ≡ ok (b, d')) × On buf rest d'
  unfolding required_field
  required_field-On t b rest least most x {buf} {tail} {d} n on e =
      let (d', is, at') = reads.required-present t b least most rest n on.at e in
      (
        d',
        rw (is, ref-On t b on.front rest on.at on.whole e at'),
        moved (law.blob_bytes t b) on.front on.whole e at',
      )

  -- A required blob that is missing raises.
  pub required_field-Lacks :
      (t : Dtag) (least : ℕ) (most : Option ℕ) (x : Exception) {buf tail : Bytes} {d : D}
      → Lacks t tail
      → On buf tail d
      → required_field dec buf d t least most x ≡ raise x
  unfolding required_field
  required_field-Lacks t least most x {buf} {d = d} lacks on =
      let (d', is, at') = reads.required-absent t least most (lacks on.front d on.at) on.at in
      rw (is, reads.token_index-At on.at, at', reads.ref-absent t buf (length on.front))
