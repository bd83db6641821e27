-- ===== src/Storage/Address/Ipv6/Compression.antt =====
-- `IsValidIpv6` of src/Utils/Storage/SQLiteDatabase.cpp: the groups on both sides of a `::`.
use watchlist.Prelude.{
  ℕ, suc, ◌+◌, ◌<◌, ◌≤◌, Bool, true, false, ◌&&◌, Option, none, some, [], ◌∷◌, ◌++◌, ◌≡◌, ◌↔◌, inl,
  inr, refl, sym, ap, ◌∙◌, arith, Bool-cases, length, ◌==◌, Bytes, is_empty, append-nil,
  append_assoc,
}
use watchlist.Storage.Address.{
  contains, find_compression, behind_first, is_some_of, fewer_than_eight, count_ipv6_parts,
  is_valid_ipv6,
}
use watchlist.Storage.Address.Ipv6.{
  IsGroups, group, dotted, longer, hex_group-free, ipv4-free, IsGroups-ipv6_loop,
  ipv6_loop-IsGroups,
}

-- One side of a `::`: nothing, or groups.
pub data IsSide (allow_ipv4 : Bool) : ℕ → Bytes → Type 0 where
  nothing : IsSide allow_ipv4 0 []
  groups : {n : ℕ} {text : Bytes} → IsGroups allow_ipv4 n text → IsSide allow_ipv4 n text

-- Eight groups, or fewer with one `::` for the missing ones.
pub data IsIpv6 (address : Bytes) : Type 0 where
  full : IsGroups true 8 address → IsIpv6 address
  compressed :
      (m n : ℕ) (left right : Bytes)
      → address ≡ left ++ (b':' ∷ b':' ∷ right)
      → IsSide false m left
      → IsSide true n right
      → m + n < 8
      → IsIpv6 address

prepend : Bytes → Option (Bytes × Bytes) → Option (Bytes × Bytes)
prepend [] o = o
prepend (c ∷ cs) o = behind_first c (prepend cs o)

prepend-append :
    (xs ys : Bytes) (o : Option (Bytes × Bytes)) → prepend (xs ++ ys) o ≡ prepend xs (prepend ys o)
unfolding prepend
prepend-append [] ys o = refl
prepend-append (x ∷ xs) ys o = ap (behind_first x) (prepend-append xs ys o)

prepend-none : (xs : Bytes) → prepend xs none ≡ none
unfolding prepend
prepend-none [] = refl
prepend-none (x ∷ xs) = ap (behind_first x) (prepend-none xs)

prepend-some : (xs l r : Bytes) → prepend xs (some (l, r)) ≡ some (xs ++ l, r)
unfolding prepend
prepend-some [] l r = refl
prepend-some (x ∷ xs) l r = ap (behind_first x) (prepend-some xs l r)

find-cons :
    (c : ℕ) (s : Bytes)
    → (c == b':') ≡ false
    → find_compression (c ∷ s) ≡ behind_first c (find_compression s)
unfolding find_compression
find-cons c [] h = refl
find-cons c (d ∷ s) h = ground (arith, h)

find-part :
    (part s : Bytes)
    → contains b':' part ≡ false
    → find_compression (part ++ s) ≡ prepend part (find_compression s)
unfolding prepend contains
find-part [] s h = refl
find-part (c ∷ cs) s h =
    find-cons c (cs ++ s) (ground (arith, h))
    ∙ ap (behind_first c) (find-part cs s (ground (arith, h)))

find-colon :
    (c : ℕ) (s : Bytes)
    → (c == b':') ≡ false
    → find_compression (b':' ∷ c ∷ s) ≡ behind_first b':' (find_compression (c ∷ s))
unfolding find_compression
find-colon c s h = ground (arith, h)

head_of :
    (t : Bytes)
    → is_empty t ≡ false
    → contains b':' t ≡ false
    → (c : ℕ) × (cs : Bytes) × (t ≡ c ∷ cs) × ((c == b':') ≡ false)
unfolding contains
head_of [] e h = absurd cc
head_of (c ∷ cs) e h = (c, cs, refl, ground (arith, h))

groups-head :
    {allow : Bool} {n : ℕ} {t : Bytes}
    → IsGroups allow n t
    → (c : ℕ) × (cs : Bytes) × (t ≡ c ∷ cs) × ((c == b':') ≡ false)
groups-head {t = t} (group h) = let (a, _, b) = hex_group-free t h in head_of t b a
groups-head {t = t} (dotted a v) = let (a, _, b) = ipv4-free t v in head_of t b a
groups-head (longer part rest h g e) =
    let (a, _, b) = hex_group-free part h in
    let (c, cs, e', n) = head_of part b a in
    (c, cs ++ (b':' ∷ rest), e ∙ ap (λ (x : Bytes). x ++ (b':' ∷ rest)) e', n)

find-groups :
    {allow : Bool} {n : ℕ} {t : Bytes} (s : Bytes)
    → IsGroups allow n t
    → find_compression (t ++ s) ≡ prepend t (find_compression s)
unfolding prepend
find-groups {t = t} s (group h) = find-part t s (hex_group-free t h).0
find-groups {t = t} s (dotted a v) = find-part t s (ipv4-free t v).0
find-groups {t = t} s (longer part rest h g e) =
    let (c, cs, e', n) = groups-head g in
    let later : find_compression (b':' ∷ (rest ++ s))
        ≡ behind_first b':' (prepend rest (find_compression s)) =
      ap (λ (x : Bytes). find_compression (b':' ∷ (x ++ s))) e'
      ∙ find-colon c (cs ++ s) n
      ∙ ap (λ (x : Bytes). behind_first b':' (find_compression (x ++ s))) (sym e')
      ∙ ap (behind_first b':') (find-groups s g) in
    ap (λ (x : Bytes). find_compression (x ++ s)) e
    ∙ ap find_compression (append_assoc part (b':' ∷ rest) s)
    ∙ find-part part (b':' ∷ (rest ++ s)) (hex_group-free part h).0
    ∙ ap (prepend part) later
    ∙ sym (prepend-append part (b':' ∷ rest) (find_compression s))
    ∙ ap (λ (x : Bytes). prepend x (find_compression s)) (sym e)

find-IsGroups : {allow : Bool} {n : ℕ} {t : Bytes} → IsGroups allow n t → find_compression t ≡ none
unfolding find_compression
find-IsGroups {t = t} g =
    ap find_compression (sym (append-nil t)) ∙ find-groups [] g ∙ prepend-none t

find-IsSide : {allow : Bool} {n : ℕ} {t : Bytes} → IsSide allow n t → find_compression t ≡ none
unfolding find_compression
find-IsSide nothing = refl
find-IsSide (groups g) = find-IsGroups g

find-here : (right : Bytes) → find_compression (b':' ∷ b':' ∷ right) ≡ some ([], right)
unfolding find_compression
find-here right = refl

find-compressed :
    {allow : Bool} {n : ℕ} (left right : Bytes)
    → IsSide allow n left
    → find_compression (left ++ (b':' ∷ b':' ∷ right)) ≡ some (left, right)
find-compressed left right nothing = find-here right
find-compressed left right (groups g) =
    find-groups (b':' ∷ b':' ∷ right) g
    ∙ ap (prepend left) (find-here right)
    ∙ prepend-some left [] right
    ∙ ap (λ (x : Bytes). some (x, right)) (append-nil left)

behind-some :
    (c : ℕ) (o : Option (Bytes × Bytes)) (left right : Bytes)
    → behind_first c o ≡ some (left, right)
    → (l : Bytes) × (o ≡ some (l, right)) × (left ≡ c ∷ l)
behind-some c none left right h = absurd cc
behind-some c (some (l, r)) left right h = (l, ground (arith, h), ground (arith, h))

find_sound :
    (text left right : Bytes)
    → find_compression text ≡ some (left, right)
    → text ≡ left ++ (b':' ∷ b':' ∷ right)
unfolding find_compression
find_sound [] left right h = absurd cc
find_sound (c ∷ []) left right h = absurd cc
find_sound (c ∷ d ∷ rest) left right h = elim (Bool-cases (c == b':' && d == b':')) [
  | inl both ↦ let h' = rw both at h in ground (arith, both, h')
  | inr not_both ↦
      let (l, found, e) =
        behind-some c (find_compression (d ∷ rest)) left right (rw not_both at h) in
      rw e (ap (◌∷◌ c) (find_sound (d ∷ rest) l right found))
]

count_ipv6_parts-IsSide :
    (allow : Bool) (m : ℕ) (text : Bytes)
    → count_ipv6_parts text allow ≡ some m
    → IsSide allow m text
unfolding count_ipv6_parts
count_ipv6_parts-IsSide allow m [] h = let e : 0 ≡ m = ground (arith, h) in rw (← e) nothing
count_ipv6_parts-IsSide allow m (c ∷ cs) h =
    let (n, size, g) = ipv6_loop-IsGroups (suc (length (c ∷ cs))) allow 0 m (c ∷ cs) h in
    let e : m ≡ n = omega arith in rw e (groups g)

IsSide-count_ipv6_parts :
    (allow : Bool) (m : ℕ) (text : Bytes)
    → IsSide allow m text
    → count_ipv6_parts text allow ≡ some m
unfolding count_ipv6_parts
IsSide-count_ipv6_parts allow m text nothing = refl
IsSide-count_ipv6_parts allow m text (groups g) = by_text text g
  where
    by_text : (t : Bytes) → IsGroups allow m t → count_ipv6_parts t allow ≡ some m
    by_text [] g = absurd (let (c, cs, e, n) = groups-head g in cc)
    by_text (c ∷ cs) g =
        IsGroups-ipv6_loop (suc (length (c ∷ cs))) allow 0 m (c ∷ cs) (omega arith) g
        ∙ ap some (omega arith)

eight_lem : (o : Option ℕ) → is_some_of 8 o ≡ true → o ≡ some 8
eight_lem none h = absurd cc
eight_lem (some k) h = ground arith

fewer_lem :
    (a b : Option ℕ)
    → fewer_than_eight a b ≡ true
    → (m : ℕ) × (n : ℕ) × (a ≡ some m) × (b ≡ some n) × (m + n < 8)
fewer_lem none b h = absurd cc
fewer_lem (some m) none h = absurd cc
fewer_lem (some m) (some n) h = (m, n, refl, refl, ground arith)

IsGroups-IsSide :
    (allow : Bool) (n : ℕ) (text : Bytes) → 1 ≤ n → IsSide allow n text → IsGroups allow n text
IsGroups-IsSide allow n text l nothing = absurd (omega arith)
IsGroups-IsSide allow n text l (groups g) = g

accepted :
    (address : Bytes) (o : Option (Bytes × Bytes))
    → find_compression address ≡ o
    → is_valid_ipv6 address ≡ true
    → IsIpv6 address
unfolding is_valid_ipv6
accepted address none e h = full (
    IsGroups-IsSide true 8 address (omega arith)
      (count_ipv6_parts-IsSide true 8 address (eight_lem _ (rw (is_valid_ipv6, e) at h))))
accepted address (some (left, right)) e h =
    at_right (find_compression right) (rw (is_valid_ipv6, e) at h)
  where
    at_right :
        (o : Option (Bytes × Bytes))
        → elim o [
          | some _ ↦ false
          | none ↦ fewer_than_eight (count_ipv6_parts left false) (count_ipv6_parts right true)
        ]
          ≡ true
        → IsIpv6 address
    at_right (some x) h = absurd cc
    at_right none h =
        let (m, n, a, b, l) =
          fewer_lem (count_ipv6_parts left false) (count_ipv6_parts right true) h in
        compressed m n left right (find_sound address left right e)
          (count_ipv6_parts-IsSide false m left a) (count_ipv6_parts-IsSide true n right b) l

passes : (address : Bytes) → IsIpv6 address → is_valid_ipv6 address ≡ true
unfolding is_valid_ipv6
passes address (full g) =
    rw (is_valid_ipv6, find-IsGroups g, IsSide-count_ipv6_parts true 8 address (groups g)) refl
passes address (compressed m n left right e a b l) =
    let found : find_compression address ≡ some (left, right) =
      ap find_compression e ∙ find-compressed left right a in
    rw
      (
        is_valid_ipv6,
        found,
        find-IsSide b,
        IsSide-count_ipv6_parts false m left a,
        IsSide-count_ipv6_parts true n right b,
      )
      (ground (arith, l))

pub is_valid_ipv6_iff : (address : Bytes) → (is_valid_ipv6 address ≡ true) ↔ IsIpv6 address
is_valid_ipv6_iff address = (accepted address (find_compression address) refl, passes address)
