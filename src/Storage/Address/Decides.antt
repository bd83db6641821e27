-- ===== src/Storage/Address/Decides.antt =====
-- Which addresses the tests accept.
use watchlist.Prelude.{
  ℕ, suc, ◌≤◌, Bool, true, false, Option, none, some, [], ◌∷◌, ◌++◌, ◌⊎◌, inl, inr, ◌≡◌, ◌≢◌, ◌↔◌,
  refl, ap, ◌∙◌, arith, length, ◌==◌, has_value, Bytes, all_of, is_digit, is_alnum, is_alpha,
  is_empty,
}
use watchlist.Storage.Address.{
  contains, is_octet, is_valid_ipv4, is_some_of, is_label, is_label_byte, labels_loop,
  without_final_dot, is_numeric_or_dot, is_valid_hostname,
}
use watchlist.Storage.Address.Spec.{
  Separated, IsParts-Separated, IsOctet, is_octet_iff, IsLabel, is_label_iff, IsHostname,
  without_final_dot-split, without_final_dot-name, some_other, not_numeric,
}
use watchlist.Storage.Address.Pieces.{
  IsParts, parts_loop, ipv4_parts-parts_loop, labels_loop-parts_loop, IsParts-parts_loop,
  parts_loop-IsParts,
}

pub contains-all_of :
    (sep : ℕ) (test : ℕ → Bool) (part : Bytes)
    → ((c : ℕ) → test c ≡ true → (c == sep) ≡ false)
    → all_of test part ≡ true
    → contains sep part ≡ false
unfolding contains all_of
contains-all_of sep test [] h a = refl
contains-all_of sep test (c ∷ cs) h a =
    let later : contains sep cs ≡ false = contains-all_of sep test cs h (ground arith) in
    let here : (c == sep) ≡ false = h c (ground arith) in rw (here, later)

octet-free : (part : Bytes) → is_octet part ≡ true → contains b'.' part ≡ false
unfolding is_octet
octet-free part h =
    contains-all_of b'.' is_digit part (λ c d. unfold is_digit in ground arith) (ground arith)

label-free : (part : Bytes) → is_label part ≡ true → contains b'.' part ≡ false
unfolding is_label
label-free part h =
    contains-all_of b'.' is_label_byte part
      (λ c d. unfold is_alnum is_alpha is_digit in ground arith) (ground arith)

is_some_of_iff : (n : ℕ) (o : Option ℕ) → (is_some_of n o ≡ true) ↔ (o ≡ some n)
is_some_of_iff n none = (λ h. cc, λ h. cc)
is_some_of_iff n (some k) = ground arith

pub is_valid_ipv4-IsParts :
    (address : Bytes) → (is_valid_ipv4 address ≡ true) ↔ IsParts b'.' is_octet 4 address
unfolding is_valid_ipv4
is_valid_ipv4-IsParts address =
    let same = ipv4_parts-parts_loop (suc (length address)) 0 address in
    (
      λ h.
          let (n, size, parts) =
            parts_loop-IsParts b'.' is_octet (suc (length address)) 0 4 address
              (rw (← same) ((is_some_of_iff 4 _).0 h)) in
          let four : 4 ≡ n = omega arith in rw four parts,
      λ parts. (is_some_of_iff 4 _).1 (
          same
          ∙ IsParts-parts_loop b'.' is_octet (suc (length address)) 0 4 address octet-free
              (omega arith) parts),
    )

-- A text is an IPv4 literal exactly when it is four numbers up to 255 of one to three digits with dots
-- between them.
pub is_valid_ipv4_iff :
    (address : Bytes) → (is_valid_ipv4 address ≡ true) ↔ Separated b'.' IsOctet 4 address
is_valid_ipv4_iff address =
    let (there, back) = is_valid_ipv4-IsParts address in
    let (octets, tests) = IsParts-Separated b'.' is_octet IsOctet 4 address is_octet_iff in
    (λ h. octets (there h), λ h. back (tests h))

found_by :
    (name : Bytes)
    → labels_loop (suc (length name)) name ≡ true
    → (m : ℕ) × (parts_loop b'.' is_label (suc (length name)) 0 name ≡ some m)
found_by name h =
    value_of (parts_loop b'.' is_label (suc (length name)) 0 name)
      (rw (← labels_loop-parts_loop (suc (length name)) 0 name) h)
  where
    value_of : (o : Option ℕ) → has_value o ≡ true → (m : ℕ) × (o ≡ some m)
    value_of none e = absurd cc
    value_of (some m) e = (m, refl)

nonempty_of_letter : (name : Bytes) → all_of is_numeric_or_dot name ≡ false → is_empty name ≡ false
nonempty_of_letter [] h = absurd (unfold all_of in cc)
nonempty_of_letter (c ∷ cs) h = refl

accepted_iff :
    (hostname : Bytes)
    → (is_valid_hostname hostname ≡ true) ↔ (
        (hostname ≢ [])
        × (length hostname ≤ 253)
        × (all_of is_numeric_or_dot (without_final_dot hostname) ≡ false)
        × (labels_loop (suc (length (without_final_dot hostname))) (without_final_dot hostname)
            ≡ true))
unfolding is_valid_hostname
accepted_iff hostname = (
  λ h. (ground arith, ground arith, ground arith, ground arith),
  λ (given, size, letter, loop).
      let some_name = nonempty_of_letter (without_final_dot hostname) letter in ground arith,
)

nonempty :
    (hostname name front : Bytes) (c : ℕ) (rest : Bytes)
    → name ≡ front ++ c ∷ rest
    → (hostname ≡ name) ⊎ (hostname ≡ name ++ b'.' ∷ [])
    → hostname ≢ []
nonempty hostname name [] c rest e (inl g) = λ h. cc
nonempty hostname name (x ∷ front) c rest e (inl g) = λ h. cc
nonempty hostname [] front c rest e (inr g) = λ h. cc
nonempty hostname (x ∷ name) front c rest e (inr g) = λ h. cc

-- A text is a host name exactly when it has 1 to 253 bytes, and is, after a final dot is taken off, a
-- row of labels with dots between them that is not all digits and dots. A label has 1 to 63 letters,
-- digits and hyphens, and no hyphen at either end.
pub is_valid_hostname_iff :
    (hostname : Bytes) → (is_valid_hostname hostname ≡ true) ↔ IsHostname hostname
is_valid_hostname_iff hostname = (accepted, tested)
  where
    accepted : is_valid_hostname hostname ≡ true → IsHostname hostname
    accepted h =
        let (given, size, letter, loop) = (accepted_iff hostname).0 h in
        let (m, found) = found_by (without_final_dot hostname) loop in
        let (n, _, labels) =
          parts_loop-IsParts b'.' is_label _ 0 m (without_final_dot hostname) found in
        record {
          size = size;
          name = without_final_dot hostname;
          given = without_final_dot-split hostname;
          count = n;
          labels = (IsParts-Separated b'.' is_label IsLabel n _ is_label_iff).0 labels;
          other = some_other (without_final_dot hostname) letter;
        }

    tested : IsHostname hostname → is_valid_hostname hostname ≡ true
    tested h =
        let same : without_final_dot hostname ≡ h.name =
          without_final_dot-name h.count hostname h.name h.labels h.given in
        let (front, c, rest, split, no_digit, no_dot) = h.other in
        let parts : IsParts b'.' is_label h.count h.name =
          (IsParts-Separated b'.' is_label IsLabel h.count h.name is_label_iff).1 h.labels in
        (accepted_iff hostname).1 (
          nonempty hostname h.name front c rest split h.given,
          h.size,
          rw same (not_numeric h.name front c rest split no_digit no_dot),
          rw same (
              labels_loop-parts_loop _ 0 h.name
              ∙ ap has_value (
                  IsParts-parts_loop b'.' is_label _ 0 h.count h.name label-free (omega arith)
                    parts)),
        )
