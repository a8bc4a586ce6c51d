-- ===== src/Version/Parse.antt =====
-- What the parser of versions accepts.
use controllerbus.Common.{
  ℕ, ◌+◌, ◌-◌, ◌*◌, ◌^◌, ◌≤◌, ◌<◌, true, false, List, [], ◌∷◌, ◌++◌, ◌||◌, All, ltb, ◌==◌, ◌≡◌,
  refl, arith, ap, subst, sym, ◌∙◌, Bool-cases, inl, inr, is_empty,
}
use mathlib.Core.List.{append-nil}
use controllerbus.Version.{
  VersionError, Result, ok, failed, ◌>>=◌, Version, dot, plus, minus, base_of, push_first, split,
  is_digit, digits, parse_version_part, parse_parts, parse_version,
}
use controllerbus.Version.Joining.{join, join-split}

-- The number that decimal digits spell, after those that spell `n`.
abbrev pub decimal : ℕ → List ℕ → ℕ
decimal n [] = n
decimal n (c ∷ cs) = decimal (n * 10 + (c - 48)) cs

abbrev pub Digits : List ℕ → Type 0
Digits = All (λ c. is_digit c ≡ true)

clash : {C : Type 0} {A : Type 0} {er : VersionError} {a : A} → failed er ≡ ok a → C
clash e = cc

ok-injective : {A : Type 0} {a b : A} → ok a ≡ ok b → a ≡ b
ok-injective e = cc

empty_clash : {C : Type 0} → true ≡ false → C
empty_clash e = cc

decimal-grows : (n : ℕ) (cs : List ℕ) → n ≤ decimal n cs
decimal-grows n [] = omega arith
decimal-grows n (c ∷ cs) = omega (arith, decimal-grows (n * 10 + (c - 48)) cs)

digits-ok :
    (n : ℕ) (cs : List ℕ) → Digits cs → decimal n cs < 2 ^ 64 → digits n cs ≡ ok (decimal n cs)
unfolding digits
digits-ok n [] h l = refl
digits-ok n (c ∷ cs) h l =
    ground
      (arith, digits-ok (n * 10 + (c - 48)) cs h.1 l, decimal-grows (n * 10 + (c - 48)) cs, h.0)

digits-only :
    (n : ℕ) (cs : List ℕ) (v : ℕ)
    → n < 2 ^ 64
    → digits n cs ≡ ok v
    → Digits cs × (v ≡ decimal n cs) × (v < 2 ^ 64)
unfolding digits
digits-only n [] v h e = ground arith
digits-only n (c ∷ cs) v h e = elim (Bool-cases (is_digit c)) [
  | inr miss ↦ clash (rw miss at e)
  | inl hit ↦ elim (Bool-cases (ltb (n * 10 + (c - 48)) (2 ^ 64))) [
    | inr miss ↦ clash (rw (hit, miss) at e)
    | inl room ↦
        let (all, eq, small) =
          digits-only (n * 10 + (c - 48)) cs v (ground arith) (rw (hit, room) at e) in
        ((hit, all), eq, small)
  ]
]

-- A text of digits, not empty, whose number a uint64 holds.
pub record IsPart (cs : List ℕ) : Type 0 where
  pub all_digits : Digits cs
  pub not_empty : is_empty cs ≡ false
  pub fits : decimal 0 cs < 2 ^ 64

part-ok : (cs : List ℕ) → IsPart cs → parse_version_part cs ≡ ok (decimal 0 cs)
unfolding parse_version_part
part-ok [] h = empty_clash h.not_empty
part-ok (c ∷ cs) h = digits-ok 0 (c ∷ cs) h.all_digits h.fits

IsPart-only : (cs : List ℕ) (v : ℕ) → parse_version_part cs ≡ ok v → IsPart cs × (v ≡ decimal 0 cs)
unfolding parse_version_part
IsPart-only [] v e = clash e
IsPart-only (c ∷ cs) v e =
    let (all, eq, room) = digits-only 0 (c ∷ cs) v (omega arith) e in
    (
      record { all_digits = all; not_empty = refl; fits = subst (λ (n : ℕ). n < 2 ^ 64) eq room },
      eq,
    )

not_special :
    (c : ℕ) → is_digit c ≡ true → ((c == minus || c == plus) ≡ false) × ((c == dot) ≡ false)
not_special c h = ground arith

base_of-Digits : (a rest : List ℕ) → Digits a → base_of (a ++ rest) ≡ a ++ base_of rest
unfolding base_of
base_of-Digits [] rest h = refl
base_of-Digits (c ∷ cs) rest h =
    rw (not_special c h.0).0 (ap (λ (l : List ℕ). c ∷ l) (base_of-Digits cs rest h.1))

split-Digits : (a : List ℕ) → Digits a → split a ≡ a ∷ []
unfolding split push_first
split-Digits [] h = refl
split-Digits (c ∷ cs) h = rw ((not_special c h.0).1, split-Digits cs h.1) refl

split-dot : (a rest : List ℕ) → Digits a → split (a ++ dot ∷ rest) ≡ a ∷ split rest
unfolding split push_first
split-dot [] rest h = refl
split-dot (c ∷ cs) rest h = rw ((not_special c h.0).1, split-dot cs rest h.1) refl

-- A suffix is empty, or begins with a plus or a minus.
abbrev pub Suffix : List ℕ → Type 0
Suffix s = base_of s ≡ []

base-splits :
    (a b c s : List ℕ)
    → IsPart a
    → IsPart b
    → IsPart c
    → Suffix s
    → split (base_of (a ++ dot ∷ (b ++ dot ∷ (c ++ s)))) ≡ a ∷ b ∷ c ∷ []
unfolding base_of
base-splits a b c s p q r h =
    rw
      (
        base_of-Digits a (dot ∷ (b ++ dot ∷ (c ++ s))) p.all_digits,
        base_of-Digits b (dot ∷ (c ++ s)) q.all_digits,
        base_of-Digits c s r.all_digits,
        h,
        append-nil c,
        split-dot a (b ++ dot ∷ c) p.all_digits,
        split-dot b c q.all_digits,
        split-Digits c r.all_digits,
      )
      refl

-- Three parts, with dots between them and any suffix after them, are parsed to the numbers that they
-- spell, and the text is kept whole.
pub parse_version-parts :
    (a b c s : List ℕ)
    → IsPart a
    → IsPart b
    → IsPart c
    → Suffix s
    → parse_version (a ++ dot ∷ (b ++ dot ∷ (c ++ s)))
      ≡ ok (record {
        value = a ++ dot ∷ (b ++ dot ∷ (c ++ s));
        major = decimal 0 a;
        minor = decimal 0 b;
        patch = decimal 0 c;
      })
unfolding parse_version parse_parts ◌>>=◌
parse_version-parts a b c s p q r h =
    rw (base-splits a b c s p q r h, part-ok a p, part-ok b q, part-ok c r) refl

>>=-ok :
    {A B : Type 0} (m : Result A) (f : A → Result B) (b : B)
    → (m >>= f) ≡ ok b
    → (a : A) × (m ≡ ok a) × (f a ≡ ok b)
unfolding ◌>>=◌
>>=-ok (ok a) f b e = (a, refl, e)
>>=-ok (failed er) f b e = clash e

parts-only :
    (v : List ℕ) (ps : List (List ℕ)) (r : Version)
    → parse_parts v ps ≡ ok r
    → (a : List ℕ) × (b : List ℕ) × (c : List ℕ) × (ps ≡ a ∷ b ∷ c ∷ [])
      × IsPart a
      × IsPart b
      × IsPart c
      × (r ≡ record { value = v; major = decimal 0 a; minor = decimal 0 b; patch = decimal 0 c })
unfolding parse_parts
parts-only v [] r e = clash e
parts-only v (a ∷ []) r e = clash e
parts-only v (a ∷ b ∷ []) r e = clash e
parts-only v (a ∷ b ∷ c ∷ []) r e =
    let (x, p, e') = >>=-ok _ _ r e in
    let (y, q, e'') = >>=-ok _ _ r e' in
    let (z, t, done) = >>=-ok _ _ r e'' in
    let (pa, ea) = IsPart-only a x p in
    let (pb, eb) = IsPart-only b y q in
    let (pc, ec) = IsPart-only c z t in
    (
      a,
      b,
      c,
      refl,
      pa,
      pb,
      pc,
      sym (ok-injective done) ∙ λ i. record { value = v; major = ea i; minor = eb i; patch = ec i },
    )
parts-only v (a ∷ b ∷ c ∷ d ∷ ps) r e = clash e

-- A version that is parsed keeps its text, and what stands before the suffix is three parts with
-- dots between them, which spell the numbers: nothing else is accepted.
pub parse_version-only :
    (v : List ℕ) (r : Version)
    → parse_version v ≡ ok r
    → (a : List ℕ) × (b : List ℕ) × (c : List ℕ) × (base_of v ≡ a ++ dot ∷ (b ++ dot ∷ c))
      × IsPart a
      × IsPart b
      × IsPart c
      × (r ≡ record { value = v; major = decimal 0 a; minor = decimal 0 b; patch = decimal 0 c })
unfolding parse_version
parse_version-only v r e =
    let (a, b, c, eq, pa, pb, pc, same) = parts-only v (split (base_of v)) r e in
    (a, b, c, sym (join-split (base_of v)) ∙ ap join eq, pa, pb, pc, same)
