-- ===== src/Sanitize/Clean.antt =====
-- What sanitizeInput and validateMPCParams of src/lib/security/input_sanitization.ts let through.
use mathlib.Core.List.{reverse, reverse-cons}
use biofire.Sanitize.{validate_mpc_params, sanitize_input, is_forbidden}
use biofire.Base.{
  ℕ, zero, suc, ◌≤◌, ◌≡◌, refl, ◌↔◌, inl, inr, Bool, true, not, none, [], ◌∷◌, ◌++◌, arith,
  Bool-cases, Text, length, take, filter, all, length-take, drop_while, trim, nat_eq, list_eq,
}

abbrev pub is_clean : ℕ → Bool
is_clean c = not (is_forbidden c)

all-filter : (p : ℕ → Bool) (t : Text) → all p (filter p t) ≡ true
all-filter p [] = refl
all-filter p (c ∷ cs) = elim (Bool-cases (p c)) [
  | inl y ↦ rw y (rw y (all-filter p cs))
  | inr n ↦ rw n (all-filter p cs)
]

all-take : (p : ℕ → Bool) (n : ℕ) (t : Text) → all p t ≡ true → all p (take n t) ≡ true
all-take p zero t h = refl
all-take p (suc n) [] h = refl
all-take p (suc n) (c ∷ cs) h = ground (arith, h, all-take p n cs)

all-drop_while : (p q : ℕ → Bool) (t : Text) → all p t ≡ true → all p (drop_while q t) ≡ true
all-drop_while p q [] h = refl
all-drop_while p q (c ∷ cs) h = ground (arith, h, all-drop_while p q cs)

all-append : (p : ℕ → Bool) (s t : Text) → all p s ≡ true → all p t ≡ true → all p (s ++ t) ≡ true
all-append p [] t hs ht = ht
all-append p (c ∷ cs) t hs ht = ground (arith, hs, all-append p cs t, ht)

pub all-reverse : (p : ℕ → Bool) (t : Text) → all p t ≡ true → all p (reverse t) ≡ true
all-reverse p [] h = refl
all-reverse p (c ∷ cs) h =
    rw (reverse-cons c cs) (
      all-append p (reverse cs) (c ∷ []) (all-reverse p cs (ground (arith, h))) (ground (arith, h)))

all-trim : (p : ℕ → Bool) (t : Text) → all p t ≡ true → all p (trim t) ≡ true
unfolding trim
all-trim p t h = all-reverse p _ (all-drop_while p _ _ (all-reverse p _ (all-drop_while p _ t h)))

-- A sanitized text has no character of the five that are taken for dangerous, and no more characters
-- than were asked for.
sanitize_input-clean :
    (t : Text) (n : ℕ)
    → (all is_clean (sanitize_input t n) ≡ true) × (length (sanitize_input t n) ≤ n)
unfolding sanitize_input
sanitize_input-clean t n = (
  all-take is_clean n _ (all-trim is_clean _ (all-filter is_clean t)),
  omega (arith, length-take n (trim (filter is_clean t))),
)

-- The parameters of a ceremony are accepted exactly when the threshold is from 2 to 20, there are at
-- most 50 parties, and the threshold is not above the parties.
pub validate_mpc_params-none :
    (threshold parties : ℕ)
    → (validate_mpc_params threshold parties ≡ none)
      ↔ ((2 ≤ threshold) × (threshold ≤ 20) × (parties ≤ 50) × (threshold ≤ parties))
unfolding validate_mpc_params
validate_mpc_params-none threshold parties = ground arith
