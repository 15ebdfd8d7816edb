-- ===== src/Serializer/Nested.antt =====
-- Arrays and maps that encodeField of src/lib/network/binary_serializer.ts wrote, and decodeField.
use biofire.Serializer.Framing.{and_then-done}
use biofire.Serializer.Reading.{read_header-payload, payload, length-framed}
use biofire.Serializer.{encode_field, encode_parts, framed, encode_key, encode_value, encode_items}
use biofire.Serializer.Values.{Value, Parts, done, part, Outcome, done_with, ◌and_then◌}
use biofire.Base.Int.{ℤ, pos}
use biofire.Base.{
  ℕ, zero, suc, ◌+◌, ◌^◌, ◌<◌, ◌≡◌, sym, ap, ◌∙◌, ◌≢◌, inl, inr, Bool, true, false, List, [], ◌∷◌,
  ◌++◌, arith, ltb, Bool-cases, Text, length, length-append,
}
use biofire.Serializer.Fields.{decode_all, read_header, decoded, Field, decode_field}
use biofire.Serializer.Loop.{Piece, and_next-decoded, decode_all-laid, laid, not_read}

module _ (encode : Text → List ℕ) (decode : List ℕ → Text) where
  -- What the loops of encodeField write for one element and the later ones.
  one_more :
      (key : Outcome (List ℕ)) (v : Value) (rest : Outcome (List ℕ)) (bytes : List ℕ)
      → (key and_then λ k. encode_value encode v and_then λ tv.
          rest and_then λ bs. done_with (framed k tv.0 tv.1 ++ bs))
        ≡ done_with bytes
      → (q : Piece) × (later : List ℕ) × (rest ≡ done_with later)
        × (bytes ≡ framed q.key q.type q.value ++ later)
  one_more key v rest bytes h =
      let (k, _, after_key) = and_then-done key _ bytes h in
      let (tv, _, after_value) = and_then-done (encode_value encode v) _ bytes after_key in
      let (later, e, last) = and_then-done rest _ bytes after_value in
      (record { key = k; type = tv.0; value = tv.1 }, later, e, ground (arith, last))

  items-laid :
      (parts : Parts) (bytes : List ℕ)
      → encode_items encode parts ≡ done_with bytes
      → (qs : List Piece) × (bytes ≡ laid qs)
  unfolding encode_items
  items-laid done bytes h = ([], ground (arith, h))
  items-laid (part k v rest) bytes h =
      let (q, later, e, here) =
        one_more (encode_key encode []) v (encode_items encode rest) bytes h in
      let (qs, same) = items-laid rest later e in
      (q ∷ qs, here ∙ ap (λ bs. framed q.key q.type q.value ++ bs) same)

  parts-laid :
      (parts : Parts) (bytes : List ℕ)
      → encode_parts encode parts ≡ done_with bytes
      → (qs : List Piece) × (bytes ≡ laid qs)
  unfolding encode_parts
  parts-laid done bytes h = ([], ground (arith, h))
  parts-laid (part k v rest) bytes h =
      let (q, later, e, here) =
        one_more (encode_key encode k) v (encode_parts encode rest) bytes h in
      let (qs, same) = parts-laid rest later e in
      (q ∷ qs, here ∙ ap (λ bs. framed q.key q.type q.value ++ bs) same)

  -- An array, or a map of entries.
  abbrev pub nested : Bool → Parts → Value
  nested false parts = Value.array parts
  nested true parts = Value.object parts

  abbrev nested_type : Bool → ℕ
  nested_type false = 9
  nested_type true = 10

  -- The bytes of a nested value that has an element.
  nested-laid :
      (keyed : Bool) (k : Text) (v : Value) (rest : Parts) (tv : ℕ × List ℕ)
      → encode_value encode (nested keyed (part k v rest)) ≡ done_with tv
      → (q : Piece) × (qs : List Piece) × (tv.0 ≡ nested_type keyed) × (tv.1 ≡ laid (q ∷ qs))
  unfolding encode_value encode_items encode_parts
  nested-laid false k v rest tv h =
      let (bs, e, last) = and_then-done (encode_items encode (part k v rest)) _ tv h in
      let (q, later, others, here) =
        one_more (encode_key encode []) v (encode_items encode rest) bs e in
      let (qs, same) = items-laid rest later others in
      let bytes : tv.1 ≡ bs = ground (arith, last) in
      (q, qs, ground (arith, last), bytes ∙ here ∙ ap (λ t. framed q.key q.type q.value ++ t) same)
  nested-laid true k v rest tv h =
      let (bs, e, last) = and_then-done (encode_parts encode (part k v rest)) _ tv h in
      let (q, later, others, here) =
        one_more (encode_key encode k) v (encode_parts encode rest) bs e in
      let (qs, same) = parts-laid rest later others in
      let bytes : tv.1 ≡ bs = ground (arith, last) in
      (q, qs, ground (arith, last), bytes ∙ here ∙ ap (λ t. framed q.key q.type q.value ++ t) same)

  -- The value of a nested field is read by the loop.
  loop_read :
      (fuel : ℕ) (keyed : Bool) (p value : List ℕ) (at end : ℤ) (key : Text) (r : Field)
      → read_header decode p at
        ≡ decoded (record { key = key; type = nested_type keyed; bytes = value; end = end })
      → decode_field decode fuel p at ≡ decoded r
      → (inner : ℕ) × (x : Parts) × (decode_all decode inner keyed value (pos 0) done ≡ decoded x)
  unfolding decode_field
  loop_read zero keyed p value at end key r e d = absurd (ground (arith, d))
  loop_read (suc fuel) false p value at end key r e d =
      let (x, found, _) =
        and_next-decoded (decode_all decode fuel false value (pos 0) done) _ r
          (rw (decode_field, e) at d) in
      (fuel, x, found)
  loop_read (suc fuel) true p value at end key r e d =
      let (x, found, _) =
        and_next-decoded (decode_all decode fuel true value (pos 0) done) _ r
          (rw (decode_field, e) at d) in
      (fuel, x, found)

  framed_nested :
      (fuel : ℕ) (keyed : Bool) (before key : List ℕ) (q : Piece) (qs : List Piece) (after : List ℕ)
      (r : Field)
      → length (laid (q ∷ qs)) < 2 ^ 31
      → decode_field decode fuel
          (payload decode before key (nested_type keyed) (laid (q ∷ qs)) after)
          (pos (length before))
        ≢ decoded r
  framed_nested fuel keyed before key q qs after r small d =
      let value = laid (q ∷ qs) in
      let some_byte : 0 < length key + length value + length after = omega (
        arith,
        length-append (framed q.key q.type q.value) (laid qs),
        length-framed q.key q.type q.value,
      ) in
      let header =
        read_header-payload decode before key (nested_type keyed) value after small some_byte in
      elim (Bool-cases (ltb (length after) 4)) [
        | inl few ↦ not_read decode fuel _ _ _ r (rw few at header) d
        | inr many ↦
            (let (inner, x, found) = loop_read fuel keyed _ value _ _ _ r (rw many at header) d in
              decode_all-laid decode inner keyed [] q qs done x small found)
      ]

  -- No array with an element and no map with an entry is read back: whatever follows the field that
  -- encodeField wrote, decodeField does not return a value for it.
  pub decode_field-nested :
      (fuel : ℕ) (keyed : Bool) (before after field : List ℕ) (k j : Text) (v : Value)
      (rest : Parts) (r : Field)
      → encode_field encode k (nested keyed (part j v rest)) ≡ done_with field
      → length field < 2 ^ 31
      → decode_field decode fuel (before ++ (field ++ after)) (pos (length before)) ≢ decoded r
  unfolding encode_field
  decode_field-nested fuel keyed before after field k j v rest r h small d =
      let (key, _, after_key) = and_then-done (encode_key encode k) _ field h in
      let (tv, e, last) =
        and_then-done (encode_value encode (nested keyed (part j v rest))) _ field after_key in
      let (q, qs, kind, bytes) = nested-laid keyed j v rest tv e in
      let layout : framed key tv.0 tv.1 ≡ field = ground (arith, last) in
      let same : framed key (nested_type keyed) (laid (q ∷ qs)) ≡ field =
        sym (ap (λ t. framed key t tv.1) kind ∙ ap (λ b. framed key (nested_type keyed) b) bytes)
        ∙ layout in
      let fits : length (laid (q ∷ qs)) < 2 ^ 31 =
        omega
          (arith, small, ap length same, length-framed key (nested_type keyed) (laid (q ∷ qs))) in
      framed_nested fuel keyed before key q qs after r fits
        (ap (λ f. decode_field decode fuel (before ++ (f ++ after)) (pos (length before))) same ∙ d)
