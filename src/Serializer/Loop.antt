-- ===== src/Serializer/Loop.antt =====
-- The loops of decodeField in src/lib/network/binary_serializer.ts over the elements of a value.
use biofire.Serializer.Reading.{
  read_header-last, header_of, read_header-payload, payload, length-framed,
}
use biofire.Serializer.{framed}
use biofire.Serializer.Values.{Value, Parts, done, Failure}
use biofire.Base.Int.{ℤ, pos, ltb_ℤ}
use biofire.Base.{
  ℕ, zero, suc, ◌+◌, ◌^◌, ◌≤◌, ◌<◌, ◌≡◌, refl, sym, ap, ◌∙◌, ◌≢◌, inl, inr, Bool, true, false, List,
  [], ◌∷◌, ◌++◌, arith, ltb, eqb, Bool-cases, Text, length, length-append, append_assoc,
}
use biofire.Serializer.Fields.{
  added, scalar, read_as, decode_all, running, read_header, Header, failed, ◌and_next◌, Decoding,
  decoded, Field, decode_field,
}

pub and_next-decoded :
    {A B : Type 0} (o : Decoding A) (k : A → Decoding B) (b : B)
    → (o and_next k) ≡ decoded b
    → (a : A) × (o ≡ decoded a) × (k a ≡ decoded b)
and_next-decoded (decoded a) k b h = (a, refl, h)
and_next-decoded (failed f) k b h = absurd (ground (arith, h))
and_next-decoded running k b h = absurd (ground (arith, h))

-- The parts of a written field.
pub record Piece : Type 0 where
  pub key : List ℕ
  pub type : ℕ
  pub value : List ℕ

abbrev pub laid : List Piece → List ℕ
laid [] = []
laid (q ∷ qs) = framed q.key q.type q.value ++ laid qs

module _ (decode : List ℕ → Text) where
  offset_of :
      {A : Type 0} (o : Decoding A) (g : A → Value) (h : Header) (r : Field)
      → (o and_next λ x. read_as decode h (g x)) ≡ decoded r
      → r.new_offset ≡ h.end
  offset_of (decoded a) g h r e = ground (arith, e)
  offset_of (failed f) g h r e = absurd (ground (arith, e))
  offset_of running g h r e = absurd (ground (arith, e))

  -- Where a field is decoded, the offset behind it is where it ends.
  decode_field-offset :
      (fuel : ℕ) (p : List ℕ) (at : ℤ) (h : Header) (r : Field)
      → read_header decode p at ≡ decoded h
      → decode_field decode fuel p at ≡ decoded r
      → r.new_offset ≡ h.end
  unfolding decode_field
  decode_field-offset zero p at h r e d = absurd (ground (arith, d))
  decode_field-offset (suc fuel) p at h r e d = elim (Bool-cases (eqb h.type 9)) [
    | inl items ↦
        offset_of (decode_all decode fuel false h.bytes (pos 0) done) (λ parts. Value.array parts) h
          r (rw (decode_field, e, items) at d)
    | inr other ↦ elim (Bool-cases (eqb h.type 10)) [
      | inl entries ↦
          offset_of (decode_all decode fuel true h.bytes (pos 0) done) (λ parts. Value.object parts)
            h r (rw (decode_field, e, other, entries) at d)
      | inr plain ↦
          offset_of (scalar decode h.type h.bytes) (λ v. v) h r
            (rw (decode_field, e, other, plain) at d)
    ]
  ]

  pub not_read :
      (fuel : ℕ) (p : List ℕ) (at : ℤ) (f : Failure) (r : Field)
      → read_header decode p at ≡ failed f
      → decode_field decode fuel p at ≢ decoded r
  unfolding decode_field
  not_read zero p at f r e d = absurd (ground (arith, d))
  not_read (suc fuel) p at f r e d = absurd (ground (arith, rw (decode_field, e) at d))

  -- A field that is decoded has four bytes behind it, and ends where it was written to end.
  decode_field-payload :
      (fuel : ℕ) (before key : List ℕ) (type : ℕ) (value after : List ℕ) (r : Field)
      → length value < 2 ^ 31
      → decode_field decode fuel (payload decode before key type value after) (pos (length before))
        ≡ decoded r
      → (4 ≤ length after) × (r.new_offset ≡ pos (length before + 6 + length key + length value))
  decode_field-payload fuel before key type value after r small d =
      elim (Bool-cases (ltb 0 (length key + length value + length after))) [
        | inl some_byte ↦ elim (Bool-cases (ltb (length after) 4)) [
          | inl few ↦ absurd (
              not_read fuel _ _ _ r
                (rw few at (
                  read_header-payload decode before key type value after small
                    (ground (arith, some_byte))))
                d)
          | inr many ↦ (
            ground (arith, many),
            decode_field-offset fuel _ _ (header_of decode before key type value after) r
                (rw many at (
                  read_header-payload decode before key type value after small
                    (ground (arith, some_byte))))
                d,
          )
        ]
        | inr nothing ↦ absurd (
            not_read fuel _ _ _ r
              (read_header-last decode before key type value after (ground (arith, nothing))) d)
      ]

  -- A round of the loop that ends well: four bytes follow the element, and the loop goes on there.
  first_read :
      (fuel : ℕ) (keyed : Bool) (before : List ℕ) (q : Piece) (after : List ℕ) (acc r : Parts)
      → length q.value < 2 ^ 31
      → decode_all decode
          (suc fuel)
          keyed
          (before ++ (framed q.key q.type q.value ++ after))
          (pos (length before))
          acc
        ≡ decoded r
      → (4 ≤ length after)
        × (next : Parts) × (decode_all decode fuel keyed
              (before ++ (framed q.key q.type q.value ++ after))
              (pos (length before + 6 + length q.key + length q.value))
              next
            ≡ decoded r)
  unfolding decode_all
  first_read fuel keyed before q after acc r small d =
      let p = before ++ (framed q.key q.type q.value ++ after) in
      let inside : ltb_ℤ (pos (length before)) (pos (length p)) ≡ true = ground (
        arith,
        length-append before (framed q.key q.type q.value ++ after),
        length-append (framed q.key q.type q.value) after,
        length-framed q.key q.type q.value,
      ) in
      let (f, found, later) =
        and_next-decoded (decode_field decode fuel p (pos (length before)))
          (λ f. decode_all decode fuel keyed p f.new_offset (added keyed f.key f.value acc)) r
          (rw (decode_all, inside) at d) in
      let (enough, offset) =
        decode_field-payload fuel before q.key q.type q.value after f small found in
      (
        enough,
        added keyed f.key f.value acc,
        ap (λ o. decode_all decode fuel keyed p o (added keyed f.key f.value acc)) (sym offset)
            ∙ later,
      )

  -- The loop over the elements does not get past the last one, which nothing follows.
  pub decode_all-laid :
      (fuel : ℕ) (keyed : Bool) (before : List ℕ) (q : Piece) (qs : List Piece) (acc r : Parts)
      → length (laid (q ∷ qs)) < 2 ^ 31
      → decode_all decode fuel keyed (before ++ laid (q ∷ qs)) (pos (length before)) acc ≢ decoded r
  unfolding decode_all
  decode_all-laid zero keyed before q qs acc r small d = absurd (ground (arith, d))
  decode_all-laid (suc fuel) keyed before q [] acc r small d =
      let size : length q.value < 2 ^ 31 = omega (
        arith,
        small,
        length-append (framed q.key q.type q.value) [],
        length-framed q.key q.type q.value,
      ) in
      let (enough, _, _) = first_read fuel keyed before q [] acc r size d in
      absurd (omega (arith, enough))
  decode_all-laid (suc fuel) keyed before q (q' ∷ qs) acc r small d =
      let written = framed q.key q.type q.value in
      let sizes = length-append written (laid (q' ∷ qs)) in
      let size : length q.value < 2 ^ 31 =
        omega (arith, small, sizes, length-framed q.key q.type q.value) in
      let (_, next, later) = first_read fuel keyed before q (laid (q' ∷ qs)) acc r size d in
      let here : length before + 6 + length q.key + length q.value ≡ length (before ++ written) =
        omega (arith, length-append before written, length-framed q.key q.type q.value) in
      decode_all-laid fuel keyed (before ++ written) q' qs next r (omega (arith, small, sizes)) (
        ap (λ p. decode_all decode fuel keyed p (pos (length (before ++ written))) next)
          (append_assoc before written (laid (q' ∷ qs)))
        ∙ ap
            (λ n. decode_all decode fuel keyed (before ++ (written ++ laid (q' ∷ qs))) (pos n) next)
            (sym here)
        ∙ later)
