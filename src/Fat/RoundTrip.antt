-- ===== src/Fat/RoundTrip.antt =====
-- fs/fat32.cpp: `decode_83` returns the name that `encode_83` took, for a name that fits.
use knail.Prelude.{
  ℕ, zero, suc, ◌-◌, ◌≤◌, ◌<◌, ◌≡◌, ◌≢◌, ◌⊎◌, inl, inr, refl, sym, ap, subst, ap₂, ◌∙◌, Bool, true,
  false, ◌||◌, List, [], ◌∷◌, ◌++◌, ltb, leb, ◌==◌, get_or, take, replicate, length, All, arith,
  Bool-cases, get_or-append, append-nil, map,
}
use knail.Fat.Names.{
  space, point, is_upper, is_lower, lowered, lower_all, name_len, decode_83, upper, base_loop,
  ext_loop, padded, ext_of, encode_83,
}

abbrev any_lower : List ℕ → Bool
any_lower [] = false
any_lower (c ∷ cs) = is_lower c || any_lower cs

-- A part of a name that a field of `n` characters holds: without a space at the end, and without
-- letters of both cases.
pub record IsField (n : ℕ) (part : List ℕ) : Type 0 where
  pub fits : length part ≤ n
  pub ends : (i : ℕ) → suc i ≡ length part → get_or part i 0 ≢ space
  pub uniform : All (λ c. is_upper c ≡ false) part ⊎ All (λ c. is_lower c ≡ false) part

-- The name with this base and this extension.
abbrev pub joined : List ℕ → List ℕ → List ℕ
joined base [] = base
joined base (c ∷ cs) = base ++ (point ∷ c ∷ cs)

lowered-upper : (c : ℕ) → is_upper c ≡ false → lowered true (upper c) ≡ c
unfolding lowered upper is_upper is_lower
lowered-upper c h = ground arith

upper-same : (c : ℕ) → is_lower c ≡ false → upper c ≡ c
unfolding upper
upper-same c h = rw h refl

lower_all-false : (cs : List ℕ) → any_lower cs ≡ false → lower_all false (map upper cs) ≡ cs
unfolding lower_all lowered
lower_all-false [] h = refl
lower_all-false (c ∷ cs) h = elim (Bool-cases (is_lower c)) [
  | inl e ↦ absurd (let two : true ≡ false = rw e at h in cc)
  | inr e ↦ ap₂ (λ (x : ℕ) (l : List ℕ). x ∷ l) (upper-same c e) (lower_all-false cs (rw e at h))
]

lower_all-true :
    (cs : List ℕ) → All (λ c. is_upper c ≡ false) cs → lower_all true (map upper cs) ≡ cs
unfolding lower_all
lower_all-true [] h = refl
lower_all-true (c ∷ cs) h =
    ap₂ (λ (x : ℕ) (l : List ℕ). x ∷ l) (lowered-upper c h.0) (lower_all-true cs h.1)

no_lower : (cs : List ℕ) → All (λ c. is_lower c ≡ false) cs → any_lower cs ≡ false
no_lower [] h = refl
no_lower (c ∷ cs) h = rw h.0 (no_lower cs h.1)

lower_all-upper :
    (n : ℕ) (part : List ℕ) → IsField n part → lower_all (any_lower part) (map upper part) ≡ part
lower_all-upper n part field = elim (Bool-cases (any_lower part)) [
  | inr none_small ↦ rw none_small (lower_all-false part none_small)
  | inl some_small ↦ elim field.uniform [
    | inl no_capitals ↦ rw some_small (lower_all-true part no_capitals)
    | inr no_small ↦ let e = no_lower part no_small in absurd cc
  ]
]

-- The length of a field is where the spaces at its end begin.
name_len-end :
    (n l : ℕ) (field : List ℕ)
    → l ≤ n
    → ((i : ℕ) → l ≤ i → i < n → get_or field i 0 ≡ space)
    → ((i : ℕ) → suc i ≡ l → get_or field i 0 ≢ space)
    → name_len n field ≡ l
unfolding name_len
name_len-end zero l field le blank ends = omega arith
name_len-end (suc n) l field le blank ends = elim (Bool-cases (leb l n)) [
  | inl below ↦
      let le' : l ≤ n = ground arith in
      let gap = blank n le' (omega arith) in
      rw gap (name_len-end n l field le' (λ i ge lt. blank i ge (omega arith)) ends)
  | inr above ↦
      let last : suc n ≡ l = ground arith in
      let full : (get_or field n 0 == space) ≡ false = ground (arith, ends n last) in rw full last
]

length-map : (cs : List ℕ) → length (map upper cs) ≡ length cs
length-map [] = refl
length-map (c ∷ cs) = ap suc (length-map cs)

get_or-map : (cs : List ℕ) (i : ℕ) → get_or (map upper cs) i 0 ≡ upper (get_or cs i 0)
unfolding upper is_lower
get_or-map [] i = ground arith
get_or-map (c ∷ cs) zero = refl
get_or-map (c ∷ cs) (suc i) = get_or-map cs i

upper-space : (c : ℕ) → upper c ≡ space → c ≡ space
unfolding upper is_lower
upper-space c h = ground arith

take_of_append : (cs more : List ℕ) → take (length cs) (cs ++ more) ≡ cs
take_of_append [] more = refl
take_of_append (c ∷ cs) more = ap (λ (l : List ℕ). c ∷ l) (take_of_append cs more)

get_or-behind :
    (n i : ℕ) (cs : List ℕ)
    → length cs ≤ i
    → i < n
    → get_or (cs ++ replicate (n - length cs) space) i 0 ≡ space
get_or-behind n i cs ge lt =
    let past : ltb i (length cs) ≡ false = ground arith in
    get_or-append cs (replicate (n - length cs) space) i 0
    ∙ rw past (get_or-replicate_in (n - length cs) (i - length cs) (omega arith))
  where
    get_or-replicate_in : (k j : ℕ) → j < k → get_or (replicate k space) j 0 ≡ space
    get_or-replicate_in zero j h = absurd (omega arith)
    get_or-replicate_in (suc k) zero h = refl
    get_or-replicate_in (suc k) (suc j) h = get_or-replicate_in k j (omega arith)

-- What `decode_83` takes of a field that holds a part of a name is the part, in capitals.
module _ (n : ℕ) (part : List ℕ) (field : IsField n part) where
  name_len-padded : name_len n (padded n (map upper part)) ≡ length part
  unfolding padded
  name_len-padded =
      let big = map upper part in
      name_len-end n (length part) (big ++ replicate (n - length big) space) field.fits
        (λ i ge lt. get_or-behind n i big (omega (arith, length-map part)) lt)
        (λ i last e. field.ends i last (
          upper-space (get_or part i 0)
            (sym (get_or-map part i) ∙ sym (inside i (omega (arith, length-map part))) ∙ e)))
    where
      inside :
          (i : ℕ)
          → i < length (map upper part)
          → get_or (map upper part ++ replicate (n - length (map upper part)) space) i 0
            ≡ get_or (map upper part) i 0
      inside i lt =
          let within : ltb i (length (map upper part)) ≡ true = ground arith in
          get_or-append (map upper part) (replicate (n - length (map upper part)) space) i 0
          ∙ rw within refl

  part_of :
      lower_all
        (any_lower part)
        (take (name_len n (padded n (map upper part))) (padded n (map upper part)))
      ≡ part
  unfolding padded
  part_of =
      let big = map upper part in
      ap (λ (k : ℕ). lower_all (any_lower part) (take k (padded n big)))
        (name_len-padded ∙ sym (length-map part))
      ∙ ap (lower_all (any_lower part)) (take_of_append big (replicate (n - length big) space))
      ∙ lower_all-upper n part field

base_loop-append :
    (room : ℕ) (base rest : List ℕ)
    → length base ≤ room
    → All (λ c. (c == point) ≡ false) base
    → ((k : ℕ) → base_loop k rest ≡ ([], false, rest))
    → base_loop room (base ++ rest) ≡ (map upper base, any_lower base, rest)
unfolding base_loop
base_loop-append room [] rest le plain stop = stop room
base_loop-append room (c ∷ cs) rest le plain stop =
    let room_left : ltb 0 room ≡ true = ground arith in
    rw (plain.0, room_left, base_loop-append (room - 1) cs rest (omega arith) plain.1 stop) refl

ext_loop-all :
    (room : ℕ) (ext : List ℕ)
    → length ext ≤ room
    → ext_loop room ext ≡ (map upper ext, any_lower ext)
unfolding ext_loop
ext_loop-all zero [] le = refl
ext_loop-all zero (c ∷ cs) le = absurd (omega arith)
ext_loop-all (suc room) [] le = refl
ext_loop-all (suc room) (c ∷ cs) le = rw (ext_loop-all room cs (omega arith)) refl

base_loop-nil : (k : ℕ) → base_loop k [] ≡ ([], false, [])
unfolding base_loop
base_loop-nil k = refl

base_loop-point : (cs : List ℕ) (k : ℕ) → base_loop k (point ∷ cs) ≡ ([], false, point ∷ cs)
unfolding base_loop
base_loop-point cs k = refl

name_len-blank : name_len 3 (padded 3 []) ≡ 0
unfolding name_len padded
name_len-blank = refl

-- The short name of a base and an extension.
encode_83-joined :
    (base ext : List ℕ)
    → IsField 8 base
    → IsField 3 ext
    → All (λ c. (c == point) ≡ false) base
    → encode_83 (joined base ext) ≡ record {
      name = padded 8 (map upper base);
      ext = padded 3 (map upper ext);
      lower_base = any_lower base;
      lower_ext = any_lower ext;
    }
unfolding encode_83 ext_of
encode_83-joined base [] first second plain =
    let e : base_loop 8 base ≡ (map upper base, any_lower base, []) =
      subst (λ (name : List ℕ). base_loop 8 name ≡ (map upper base, any_lower base, []))
        (append-nil base) (base_loop-append 8 base [] first.fits plain base_loop-nil) in
    rw e refl
encode_83-joined base (c ∷ cs) first second plain =
    rw
      (
        base_loop-append 8 base (point ∷ c ∷ cs) first.fits plain (base_loop-point (c ∷ cs)),
        ext_loop-all 3 (c ∷ cs) second.fits,
      )
      refl

-- For a base of at most 8 characters without a point and an extension of at most 3, each without
-- a space at its end and without letters of both cases, `decode_83` of what `encode_83` makes of
-- the name returns the name.
pub decode_83-encode_83 :
    (base ext : List ℕ)
    → IsField 8 base
    → IsField 3 ext
    → All (λ c. (c == point) ≡ false) base
    → decode_83 (encode_83 (joined base ext)) ≡ joined base ext
unfolding decode_83
decode_83-encode_83 base [] first second plain =
    rw (encode_83-joined base [] first second plain, name_len-blank) (part_of 8 base first)
decode_83-encode_83 base (c ∷ cs) first second plain =
    rw
      (
        encode_83-joined base (c ∷ cs) first second plain,
        part_of 3 (c ∷ cs) second,
        part_of 8 base first,
        name_len-padded 3 (c ∷ cs) second,
      )
      (ground arith)
