-- ===== src/Storage/Address/Spec.antt =====
-- What the address tests of src/Utils/Storage/SQLiteDatabase.cpp are meant to accept.
use watchlist.Prelude.{
  ℕ, suc, ◌+◌, ◌-◌, ◌*◌, ◌≤◌, Bool, true, false, [], ◌∷◌, ◌++◌, ◌≡◌, ◌≢◌, ◌⊎◌, ◌↔◌, inl, inr, refl,
  sym, ap, ◌∙◌, arith, length, append_assoc, All, Bool-cases, Bytes, all_of, is_digit, is_alnum,
  is_alpha, is_empty, ◌==◌, if◌then◌else◌,
}
use watchlist.Storage.Address.{
  is_octet, decimal, is_label, is_label_byte, ends_alnum, last_or, without_final_dot,
  is_numeric_or_dot,
}
use watchlist.Storage.Address.Pieces.{IsParts, single, more}

-- A number of parts that have a property, with a separator between any two of them.
pub data Separated (sep : ℕ) (P : Bytes → Type 0) : ℕ → Bytes → Type 0 where
  alone : {text : Bytes} → P text → Separated sep P 1 text
  before :
      {n : ℕ} {text : Bytes} (part rest : Bytes)
      → P part
      → Separated sep P n rest
      → text ≡ part ++ (sep ∷ rest)
      → Separated sep P (suc n) text

pub IsParts-Separated :
    (sep : ℕ) (test : Bytes → Bool) (P : Bytes → Type 0) (n : ℕ) (text : Bytes)
    → ((part : Bytes) → (test part ≡ true) ↔ P part)
    → IsParts sep test n text ↔ Separated sep P n text
IsParts-Separated sep test P n text h = (there n text, back n text)
  where
    there : (n : ℕ) (text : Bytes) → IsParts sep test n text → Separated sep P n text
    there _ text (single t) = alone ((h text).0 t)
    there _ text (more {n = m} part rest t later e) =
        before part rest ((h part).0 t) (there m rest later) e

    back : (n : ℕ) (text : Bytes) → Separated sep P n text → IsParts sep test n text
    back _ text (alone t) = single ((h text).1 t)
    back _ text (before {n = m} part rest t later e) =
        more part rest ((h part).1 t) (back m rest later) e

-- One to three decimal digits of a number up to 255.
pub data IsOctet (text : Bytes) : Type 0 where
  one_digit : (a : ℕ) → a ≤ 9 → text ≡ (b'0' + a) ∷ [] → IsOctet text
  two_digits : (a b : ℕ) → a ≤ 9 → b ≤ 9 → text ≡ (b'0' + a) ∷ (b'0' + b) ∷ [] → IsOctet text
  three_digits :
      (a b c : ℕ)
      → a ≤ 9
      → b ≤ 9
      → c ≤ 9
      → 100 * a + 10 * b + c ≤ 255
      → text ≡ (b'0' + a) ∷ (b'0' + b) ∷ (b'0' + c) ∷ []
      → IsOctet text

is_octet-IsOctet : (text : Bytes) → is_octet text ≡ true → IsOctet text
unfolding is_octet decimal all_of is_digit
is_octet-IsOctet [] h = absurd cc
is_octet-IsOctet (x ∷ []) h =
    one_digit (x - 48) (ground (arith, h)) (ap (λ n. n ∷ []) (ground (arith, h)))
is_octet-IsOctet (x ∷ y ∷ []) h =
    let a : x ≡ 48 + (x - 48) = ground (arith, h) in
    let b : y ≡ 48 + (y - 48) = ground (arith, h) in
    two_digits (x - 48) (y - 48) (ground (arith, h)) (ground (arith, h))
      (ap (λ n. n ∷ y ∷ []) a ∙ ap (λ n. (48 + (x - 48)) ∷ n ∷ []) b)
is_octet-IsOctet (x ∷ y ∷ z ∷ []) h =
    let a : x ≡ 48 + (x - 48) = ground (arith, h) in
    let b : y ≡ 48 + (y - 48) = ground (arith, h) in
    let c : z ≡ 48 + (z - 48) = ground (arith, h) in
    three_digits (x - 48) (y - 48) (z - 48) (ground (arith, h)) (ground (arith, h))
      (ground (arith, h)) (ground (arith, h))
      (ap (λ n. n ∷ y ∷ z ∷ []) a
        ∙ ap (λ n. (48 + (x - 48)) ∷ n ∷ z ∷ []) b
        ∙ ap (λ n. (48 + (x - 48)) ∷ (48 + (y - 48)) ∷ n ∷ []) c)
is_octet-IsOctet (x ∷ y ∷ z ∷ w ∷ rest) h = absurd (ground (arith, h))

IsOctet-is_octet : (text : Bytes) → IsOctet text → is_octet text ≡ true
unfolding is_octet decimal all_of is_digit
IsOctet-is_octet text (one_digit a m e) = rw e (ground arith)
IsOctet-is_octet text (two_digits a b m n e) = rw e (ground arith)
IsOctet-is_octet text (three_digits a b c l m n small e) = rw e (ground arith)

pub is_octet_iff : (text : Bytes) → (is_octet text ≡ true) ↔ IsOctet text
is_octet_iff text = (is_octet-IsOctet text, IsOctet-is_octet text)

-- 1 to 63 letters, digits and hyphens, with a letter or a digit at either end.
pub record IsLabel (text : Bytes) : Type 0 where
  pub size : length text ≤ 63
  pub bytes : All (λ c. (is_alnum c ≡ true) ⊎ (c ≡ b'-')) text
  pub first : (c : ℕ) × (rest : Bytes) × (text ≡ c ∷ rest) × (is_alnum c ≡ true)
  pub last : (front : Bytes) × (c : ℕ) × (text ≡ front ++ c ∷ []) × (is_alnum c ≡ true)

last_or-split : (c : ℕ) (cs : Bytes) → (front : Bytes) × (c ∷ cs ≡ front ++ last_or c cs ∷ [])
unfolding last_or
last_or-split c [] = ([], refl)
last_or-split c (d ∷ ds) = let (front, e) = last_or-split d ds in (c ∷ front, ap (◌∷◌ c) e)

last_or-append : (c : ℕ) (front : Bytes) (d : ℕ) → last_or c (front ++ d ∷ []) ≡ d
unfolding last_or
last_or-append c [] d = refl
last_or-append c (x ∷ front) d = last_or-append x front d

label_bytes_iff :
    (text : Bytes)
    → (all_of is_label_byte text ≡ true) ↔ All (λ c. (is_alnum c ≡ true) ⊎ (c ≡ b'-')) text
unfolding all_of
label_bytes_iff [] = (λ h. tt, λ h. refl)
label_bytes_iff (c ∷ cs) =
    let (there, back) = label_bytes_iff cs in
    (
      λ h. (one (is_label_byte c) refl (ground (arith, h)), there (ground (arith, h))),
      λ (here, later). ground (arith, here, back later),
    )
  where
    one : (b : Bool) → is_label_byte c ≡ b → b ≡ true → (is_alnum c ≡ true) ⊎ (c ≡ b'-')
    one b e h = elim (Bool-cases (is_alnum c)) [
      | inl a ↦ inl a
      | inr a ↦ inr (ground (arith, e, h, a))
    ]

is_label-IsLabel : (text : Bytes) → is_label text ≡ true → IsLabel text
unfolding is_label
is_label-IsLabel [] h = absurd cc
is_label-IsLabel (c ∷ cs) h =
    let (front, split) = last_or-split c cs in
    record {
      size = ground (arith, h);
      bytes = (label_bytes_iff (c ∷ cs)).0 (ground (arith, h));
      first = (c, cs, refl, ground (arith, h));
      last = (front, last_or c cs, split, ground (arith, h));
    }

ends_alnum-true :
    (text : Bytes) (c : ℕ) (rest front : Bytes) (d : ℕ)
    → text ≡ c ∷ rest
    → is_alnum c ≡ true
    → text ≡ front ++ d ∷ []
    → is_alnum d ≡ true
    → ends_alnum text ≡ true
unfolding last_or
ends_alnum-true text c rest [] d e a f b = rw f (ground (arith, b))
ends_alnum-true text c rest (x ∷ front) d e a f b =
    let same : x ≡ c = ground (arith, sym f ∙ e) in
    rw f (ground (arith, last_or-append x front d, a, b, same))

IsLabel-is_label : (text : Bytes) → IsLabel text → is_label text ≡ true
unfolding is_label
IsLabel-is_label text h =
    let (c, rest, e, a) = h.first in
    let (front, d, f, b) = h.last in
    let ends = ends_alnum-true text c rest front d e a f b in
    let given : is_empty text ≡ false = rw e refl in
    ground (arith, ends, given, h.size, (label_bytes_iff text).1 h.bytes)

pub is_label_iff : (text : Bytes) → (is_label text ≡ true) ↔ IsLabel text
is_label_iff text = (is_label-IsLabel text, IsLabel-is_label text)

-- An ASCII DNS name, with or without a final dot behind it.
pub record IsHostname (hostname : Bytes) : Type 0 where
  pub size : length hostname ≤ 253
  pub name : Bytes
  pub given : (hostname ≡ name) ⊎ (hostname ≡ name ++ b'.' ∷ [])
  pub count : ℕ
  pub labels : Separated b'.' IsLabel count name
  -- A byte that is no digit and no dot.
  pub other :
      (front : Bytes) × (c : ℕ) × (rest : Bytes) × (name ≡ front ++ c ∷ rest)
      × (is_digit c ≡ false)
      × (c ≢ b'.')

pub without_final_dot-split :
    (hostname : Bytes)
    → (hostname ≡ without_final_dot hostname) ⊎ (hostname ≡ without_final_dot hostname ++ b'.' ∷ [])
unfolding without_final_dot
without_final_dot-split [] = inl refl
without_final_dot-split (c ∷ []) = elim (Bool-cases (c == b'.')) [
  | inl e ↦ simp e (inr (ap (λ n. n ∷ []) (ground (arith, e))))
  | inr e ↦ simp e (inl refl)
]
without_final_dot-split (c ∷ d ∷ cs) = elim (without_final_dot-split (d ∷ cs)) [
  | inl e ↦ inl (ap (◌∷◌ c) e)
  | inr e ↦ inr (ap (◌∷◌ c) e)
]

without_final_dot-append :
    (front : Bytes) (c : ℕ)
    → without_final_dot (front ++ c ∷ []) ≡ (if c == b'.' then front else front ++ c ∷ [])
unfolding without_final_dot
without_final_dot-append [] c = refl
without_final_dot-append (x ∷ []) c = elim (Bool-cases (c == b'.')) [
  | inl e ↦ simp e refl
  | inr e ↦ simp e refl
]
without_final_dot-append (x ∷ y ∷ front) c =
    ap (◌∷◌ x) (without_final_dot-append (y ∷ front) c)
    ∙ elim (Bool-cases (c == b'.')) [ inl e ↦ simp e refl | inr e ↦ simp e refl ]

labels-last :
    (n : ℕ) (name : Bytes)
    → Separated b'.' IsLabel n name
    → (front : Bytes) × (c : ℕ) × (name ≡ front ++ c ∷ []) × (is_alnum c ≡ true)
labels-last _ name (alone l) = l.last
labels-last _ name (before {n = m} part rest l later e) =
    let (front, c, f, a) = labels-last m rest later in
    (
      part ++ b'.' ∷ front,
      c,
      e ∙ ap (λ (x : Bytes). part ++ b'.' ∷ x) f ∙ sym (append_assoc part (b'.' ∷ front) (c ∷ [])),
      a,
    )

pub without_final_dot-name :
    (n : ℕ) (hostname name : Bytes)
    → Separated b'.' IsLabel n name
    → (hostname ≡ name) ⊎ (hostname ≡ name ++ b'.' ∷ [])
    → without_final_dot hostname ≡ name
without_final_dot-name n hostname name l (inr e) =
    ap without_final_dot e ∙ without_final_dot-append name b'.'
without_final_dot-name n hostname name l (inl e) =
    let (front, c, f, a) = labels-last n name l in
    let no_dot : (c == b'.') ≡ false = unfold is_alnum is_alpha is_digit in ground (arith, a) in
    ap without_final_dot (e ∙ f) ∙ without_final_dot-append front c ∙ simp no_dot (sym f)

pub some_other :
    (name : Bytes)
    → all_of is_numeric_or_dot name ≡ false
    → (front : Bytes) × (c : ℕ) × (rest : Bytes) × (name ≡ front ++ c ∷ rest)
      × (is_digit c ≡ false)
      × (c ≢ b'.')
unfolding all_of
some_other [] h = absurd cc
some_other (c ∷ cs) h = elim (Bool-cases (is_numeric_or_dot c)) [
  | inr e ↦ ([], c, cs, refl, ground (arith, e), ground (arith, e))
  | inl e ↦
      let (front, d, rest, f, a, b) = some_other cs (ground (arith, e, h)) in
      (c ∷ front, d, rest, ap (◌∷◌ c) f, a, b)
]

pub not_numeric :
    (name front : Bytes) (c : ℕ) (rest : Bytes)
    → name ≡ front ++ c ∷ rest
    → is_digit c ≡ false
    → c ≢ b'.'
    → all_of is_numeric_or_dot name ≡ false
not_numeric name front c rest e a b = rw e (found front)
  where
    later :
        (x : ℕ) (xs : Bytes)
        → all_of is_numeric_or_dot (xs ++ c ∷ rest) ≡ false
        → all_of is_numeric_or_dot (x ∷ xs ++ c ∷ rest) ≡ false
    later x xs h = unfold all_of in ground (arith, h)

    found : (front : Bytes) → all_of is_numeric_or_dot (front ++ c ∷ rest) ≡ false
    found [] = unfold all_of in ground (arith, a, b)
    found (x ∷ xs) = later x xs (found xs)
