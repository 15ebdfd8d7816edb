-- ===== src/Random/Range.antt =====
-- What the random numbers of src/lib/security/secure_random.ts are, and which draws give them.
use biofire.Base.{
  ℕ, zero, suc, ◌+◌, ◌-◌, ◌≤◌, ◌<◌, ◌≡◌, refl, inl, inr, List, [], ◌∷◌, arith, ltb, leb, Bool-cases,
  length, ◌==◌, nat_eq, list_eq,
}
use biofire.Secure.{big_endian}
use biofire.Random.{
  random_big_int_range, raised, Drawn, drawn, failed, unfinished, reject_until, random_big_int,
  nonzero_until, random_scalar,
}

reject_until-lt :
    (max : ℕ) (draws : List (List ℕ)) {v : ℕ} {rest : List (List ℕ)}
    → reject_until max draws ≡ drawn v rest
    → v < max
reject_until-lt max [] h = absurd (ground (arith, h))
reject_until-lt max (bytes ∷ draws) {v} {rest} h =
    elim (Bool-cases (ltb (big_endian 0 bytes) max)) [
      | inl small ↦
          let same : big_endian 0 bytes ≡ v = grind (arith, h, small) in
          rw (← same) (ground (arith, small))
      | inr large ↦ reject_until-lt max draws (rw (reject_until, large) at h)
    ]

random_big_int-lt :
    (max : ℕ) (draws : List (List ℕ)) {v : ℕ} {rest : List (List ℕ)}
    → random_big_int max draws ≡ drawn v rest
    → v < max
unfolding random_big_int
random_big_int-lt max draws {v} {rest} h =
    let small = reject_until-lt max draws {v = v} {rest = rest} in ground (arith, h, small)

nonzero_until-InRange :
    (fuel order : ℕ) (draws : List (List ℕ)) {v : ℕ} {rest : List (List ℕ)} (found : Drawn)
    → random_big_int order draws ≡ found
    → nonzero_until fuel order draws ≡ drawn v rest
    → (0 < v) × (v < order)
unfolding nonzero_until
nonzero_until-InRange zero order draws found e h = absurd (ground (arith, h))
nonzero_until-InRange (suc fuel) order draws (failed x) e h =
    absurd (ground (arith, rw (nonzero_until, e) at h))
nonzero_until-InRange (suc fuel) order draws unfinished e h =
    absurd (ground (arith, rw (nonzero_until, e) at h))
nonzero_until-InRange (suc fuel) order draws {v} {rest} (drawn w later) e h =
    elim (Bool-cases (w == 0)) [
      | inl zero_drawn ↦
          nonzero_until-InRange fuel order later _ refl (rw (nonzero_until, e, zero_drawn) at h)
      | inr other ↦
          let same : w ≡ v = grind (arith, rw (nonzero_until, e, other) at h) in
          let below = random_big_int-lt order draws e in rw (← same) (ground (arith, other), below)
    ]

-- A random scalar is at least 1 and below the order of the curve.
random_scalar-InRange :
    (order : ℕ) (draws : List (List ℕ)) {v : ℕ} {rest : List (List ℕ)}
    → random_scalar order draws ≡ drawn v rest
    → (0 < v) × (v < order)
unfolding random_scalar
random_scalar-InRange order draws {v} {rest} h = elim (Bool-cases (leb order 1)) [
  | inl small ↦ absurd (ground (arith, h, small))
  | inr large ↦
      nonzero_until-InRange (suc (length draws)) order draws _ refl (rw (random_scalar, large) at h)
]

raised-InRange :
    (min max : ℕ) (found : Drawn) {v : ℕ} {rest : List (List ℕ)}
    → ((w : ℕ) (later : List (List ℕ)) → found ≡ drawn w later → w < max)
    → raised min found ≡ drawn v rest
    → (min ≤ v) × (v < min + max)
raised-InRange min max (failed e) below h = absurd (ground (arith, h))
raised-InRange min max unfinished below h = absurd (ground (arith, h))
raised-InRange min max (drawn w later) {v} {rest} below h =
    let small = below w later refl in
    let same : min + w ≡ v = grind (arith, h) in
    (omega (arith, small, same), omega (arith, small, same))

-- A number that is drawn from a range is not below its start, and below its end.
pub random_big_int_range-InRange :
    (min max : ℕ) (draws : List (List ℕ)) {v : ℕ} {rest : List (List ℕ)}
    → random_big_int_range min max draws ≡ drawn v rest
    → (min ≤ v) × (v < max)
unfolding random_big_int_range
random_big_int_range-InRange min max draws {v} {rest} h = elim (Bool-cases (leb max min)) [
  | inl empty' ↦ absurd (ground (arith, rw (random_big_int_range, empty') at h))
  | inr some_left ↦
      let (above, below) =
        raised-InRange min (max - min) (random_big_int (max - min) draws)
          (λ w later e. random_big_int-lt (max - min) draws e)
          (rw (random_big_int_range, some_left) at h) in
      let room : min ≤ max = ground (arith, some_left) in (above, omega (arith, below, room))
]
