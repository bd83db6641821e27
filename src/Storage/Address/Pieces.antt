-- ===== src/Storage/Address/Pieces.antt =====
-- Texts of parts between separators, and the loops that take them apart.
use watchlist.Prelude.{
  ◌||◌, ℕ, zero, suc, ◌+◌, ◌<◌, Bool, true, false, not, Option, none, some, [], ◌∷◌, ◌++◌, ◌≡◌, inl,
  inr, refl, ap, ◌∙◌, arith, Bool-cases, length, length-append, ◌==◌, if◌then◌else◌, has_value,
  Bytes,
}
use watchlist.Storage.Address.{cut, contains, is_octet, ipv4_parts, is_label, labels_loop}

-- A number of parts that pass a test, with a separator between any two of them.
pub data IsParts (sep : ℕ) (test : Bytes → Bool) : ℕ → Bytes → Type 0 where
  single : {text : Bytes} → test text ≡ true → IsParts sep test 1 text
  more :
      {n : ℕ} {text : Bytes} (part rest : Bytes)
      → test part ≡ true
      → IsParts sep test n rest
      → text ≡ part ++ (sep ∷ rest)
      → IsParts sep test (suc n) text

pub contains-append :
    (c : ℕ) (xs ys : Bytes) → contains c (xs ++ ys) ≡ (contains c xs || contains c ys)
unfolding contains
contains-append c [] ys = refl
contains-append c (x ∷ xs) ys = let later = contains-append c xs ys in ground (arith, later)

pub cut-without : (sep : ℕ) (part : Bytes) → contains sep part ≡ false → cut sep part ≡ (part, none)
unfolding cut contains
cut-without sep [] h = refl
cut-without sep (c ∷ cs) h =
    let e : cut sep cs ≡ (cs, none) = cut-without sep cs (ground arith) in
    let n : (c == sep) ≡ false = ground arith in rw (e, n)

pub cut-append :
    (sep : ℕ) (part rest : Bytes)
    → contains sep part ≡ false
    → cut sep (part ++ (sep ∷ rest)) ≡ (part, some rest)
unfolding cut contains
cut-append sep [] rest h = let e : (sep == sep) ≡ true = ground arith in rw e
cut-append sep (c ∷ cs) rest h =
    let e : cut sep (cs ++ (sep ∷ rest)) ≡ (cs, some rest) =
      cut-append sep cs rest (ground arith) in
    let n : (c == sep) ≡ false = ground arith in rw (e, n)

abbrev pub WasCut : ℕ → Bytes → Bytes × Option Bytes → Type 0
WasCut sep text (part, none) = (text ≡ part) × (contains sep part ≡ false)
WasCut sep text (part, some rest) = (text ≡ part ++ (sep ∷ rest)) × (contains sep part ≡ false)

WasCut-cons :
    (sep c : ℕ) (cs : Bytes) (r : Bytes × Option Bytes)
    → (c == sep) ≡ false
    → WasCut sep cs r
    → WasCut sep (c ∷ cs) (c ∷ r.0, r.1)
unfolding contains
WasCut-cons sep c cs (part, none) n (e, h) = (ap (◌∷◌ c) e, ground arith)
WasCut-cons sep c cs (part, some rest) n (e, h) = (ap (◌∷◌ c) e, ground arith)

pub cut-WasCut : (sep : ℕ) (text : Bytes) → WasCut sep text (cut sep text)
unfolding cut contains
cut-WasCut sep [] = (refl, refl)
cut-WasCut sep (c ∷ cs) = elim (Bool-cases (c == sep)) [
  | inl e ↦ rw e (ground arith, refl)
  | inr n ↦ rw n (WasCut-cons sep c cs (cut sep cs) n (cut-WasCut sep cs))
]

-- Both loops are this one, with their own tests.
unfoldable pub parts_loop : ℕ → (Bytes → Bool) → ℕ → ℕ → Bytes → Option ℕ
unfolding cut
parts_loop sep test zero k text = none
parts_loop sep test (suc fuel) k text =
    let (part, rest) = cut sep text in
    if not (test part)
    then none
    else elim rest [ none ↦ some (suc k) | some behind ↦ parts_loop sep test fuel (suc k) behind ]

pub ipv4_parts-parts_loop :
    (fuel k : ℕ) (text : Bytes) → ipv4_parts fuel k text ≡ parts_loop b'.' is_octet fuel k text
unfolding ipv4_parts parts_loop
ipv4_parts-parts_loop zero k text = refl
ipv4_parts-parts_loop (suc fuel) k text =
    same (is_octet (cut b'.' text).0) (cut b'.' text).1
      (λ behind. ipv4_parts-parts_loop fuel (suc k) behind)
  where
    same :
        (b : Bool) (rest : Option Bytes)
        → ((behind : Bytes)
            → ipv4_parts fuel (suc k) behind ≡ parts_loop b'.' is_octet fuel (suc k) behind)
        → (if not b
            then none
            else elim rest [ none ↦ some (suc k) | some behind ↦ ipv4_parts fuel (suc k) behind ])
          ≡ (if not b then none else elim rest [
            | none ↦ some (suc k)
            | some behind ↦ parts_loop b'.' is_octet fuel (suc k) behind
          ])
    same false rest h = refl
    same true none h = refl
    same true (some behind) h = h behind

pub labels_loop-parts_loop :
    (fuel k : ℕ) (text : Bytes)
    → labels_loop fuel text ≡ has_value (parts_loop b'.' is_label fuel k text)
unfolding labels_loop parts_loop
labels_loop-parts_loop zero k text = refl
labels_loop-parts_loop (suc fuel) k text =
    same (is_label (cut b'.' text).0) (cut b'.' text).1
      (λ behind. labels_loop-parts_loop fuel (suc k) behind)
  where
    same :
        (b : Bool) (rest : Option Bytes)
        → ((behind : Bytes)
            → labels_loop fuel behind ≡ has_value (parts_loop b'.' is_label fuel (suc k) behind))
        → (if not b
            then false
            else elim rest [ none ↦ true | some behind ↦ labels_loop fuel behind ])
          ≡ has_value (
              if not b then none else elim rest [
                | none ↦ some (suc k)
                | some behind ↦ parts_loop b'.' is_label fuel (suc k) behind
              ])
    same false rest h = refl
    same true none h = refl
    same true (some behind) h = h behind

module _ (sep : ℕ) (test : Bytes → Bool) where
  round :
      (fuel k : ℕ) (text part : Bytes) (rest : Option Bytes)
      → cut sep text ≡ (part, rest)
      → parts_loop sep test (suc fuel) k text ≡ (
          if not (test part) then none else elim rest [
            | none ↦ some (suc k)
            | some behind ↦ parts_loop sep test fuel (suc k) behind
          ])
  unfolding parts_loop
  round fuel k text part rest e = rw e

  pub IsParts-parts_loop :
      (fuel k n : ℕ) (text : Bytes)
      → ((part : Bytes) → test part ≡ true → contains sep part ≡ false)
      → length text < fuel
      → IsParts sep test n text
      → parts_loop sep test fuel k text ≡ some (k + n)
  IsParts-parts_loop zero k n text free l h = absurd (omega arith)
  IsParts-parts_loop (suc fuel) k n text free l (single t) =
      round fuel k text text none (cut-without sep text (free text t))
      ∙ rw t (ap some (omega arith))
  IsParts-parts_loop (suc fuel) k n text free l (more {n = m} part rest t h e) =
      let shorter : length text ≡ length part + suc (length rest) =
        ap length e ∙ length-append part (sep ∷ rest) in
      round fuel k text part (some rest) (rw e (cut-append sep part rest (free part t)))
      ∙ rw t (IsParts-parts_loop fuel (suc k) m rest free (omega arith) h ∙ ap some (omega arith))

  pub parts_loop-IsParts :
      (fuel k m : ℕ) (text : Bytes)
      → parts_loop sep test fuel k text ≡ some m
      → (n : ℕ) × (m ≡ k + n) × IsParts sep test n text
  unfolding parts_loop
  parts_loop-IsParts zero k m text h = absurd cc
  parts_loop-IsParts (suc fuel) k m text h =
      split (cut sep text).0 (cut sep text).1 (cut-WasCut sep text)
        (λ behind. parts_loop-IsParts fuel (suc k) m behind) h
    where
      split :
          (part : Bytes) (rest : Option Bytes)
          → WasCut sep text (part, rest)
          → ((behind : Bytes)
              → parts_loop sep test fuel (suc k) behind ≡ some m
              → (n : ℕ) × (m ≡ suc k + n) × IsParts sep test n behind)
          → (if not (test part) then none else elim rest [
            | none ↦ some (suc k)
            | some behind ↦ parts_loop sep test fuel (suc k) behind
          ])
            ≡ some m
          → (n : ℕ) × (m ≡ k + n) × IsParts sep test n text
      split part none (e, free) later h = elim (Bool-cases (test part)) [
        | inr failed ↦ absurd (let h' = rw failed at h in cc)
        | inl passed ↦ (1, ground (arith, rw passed at h), single (rw e passed))
      ]
      split part (some behind) (e, free) later h = elim (Bool-cases (test part)) [
        | inr failed ↦ absurd (let h' = rw failed at h in cc)
        | inl passed ↦
            let (n, size, parts) = later behind (rw passed at h) in
            (suc n, omega arith, more part behind passed parts e)
      ]
