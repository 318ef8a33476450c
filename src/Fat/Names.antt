-- ===== src/Fat/Names.antt =====
-- fs/fat32.cpp: the short names of directory entries, `decode_83`, `encode_83` and `name_matches`.
-- A field of a name is the list of its bytes.
use knail.Prelude.{
  ℕ, zero, suc, ◌+◌, ◌-◌, Bool, true, false, ◌&&◌, ◌||◌, List, [], ◌∷◌, ◌++◌, ltb, leb, ◌==◌,
  if◌then◌else◌, get_or, take, replicate, length,
}

-- The fields of a `DirEntry` that the names stand in; `reserved` holds the two flags of the case.
pub record ShortName : Type 0 where
  pub name : List ℕ
  pub ext : List ℕ
  pub lower_base : Bool
  pub lower_ext : Bool

abbrev pub space : ℕ
space = 32

abbrev pub point : ℕ
point = 46

unfoldable pub is_upper : ℕ → Bool
is_upper c = leb b'A' c && leb c b'Z'

unfoldable pub is_lower : ℕ → Bool
is_lower c = leb b'a' c && leb c b'z'

unfoldable pub lowered : Bool → ℕ → ℕ
lowered lower c = if lower && is_upper c then c + 32 else c

unfoldable pub lower_all : Bool → List ℕ → List ℕ
lower_all lower [] = []
lower_all lower (c ∷ cs) = lowered lower c ∷ lower_all lower cs

-- The length of a field without the spaces at its end.
unfoldable pub name_len : ℕ → List ℕ → ℕ
name_len zero field = 0
name_len (suc n) field =
    let rest = name_len n field in if get_or field n 0 == space then rest else suc n

unfoldable pub decode_83 : ShortName → List ℕ
decode_83 e =
    let base = lower_all e.lower_base (take (name_len 8 e.name) e.name) in
    let ext_len = name_len 3 e.ext in
    if ext_len == 0 then base else base ++ (point ∷ lower_all e.lower_ext (take ext_len e.ext))

-- A character as `encode_83` stores it.
unfoldable pub upper : ℕ → ℕ
upper c = if is_lower c then c - 32 else c

-- The loop over the base name, by the places left, which goes on to the point when the field is
-- full: the characters, whether a small letter was among them, and the rest of the name.
unfoldable pub base_loop : ℕ → List ℕ → List ℕ × Bool × List ℕ
base_loop room [] = ([], false, [])
base_loop room (c ∷ cs) =
    let (full, lower, rest) = base_loop (room - 1) cs in
    if c == point
    then ([], false, c ∷ cs)
    else if ltb 0 room
    then (upper c ∷ full, is_lower c || lower, rest)
    else (full, lower, rest)

-- The loop over the extension, which ends with the field.
unfoldable pub ext_loop : ℕ → List ℕ → List ℕ × Bool
ext_loop zero cs = ([], false)
ext_loop (suc room) [] = ([], false)
ext_loop (suc room) (c ∷ cs) =
    let (full, lower) = ext_loop room cs in (upper c ∷ full, is_lower c || lower)

-- A field that the spaces from the start stand behind.
unfoldable pub padded : ℕ → List ℕ → List ℕ
padded n field = field ++ replicate (n - length field) space

-- What stands behind the base name: nothing, or the point and the extension.
unfoldable pub ext_of : List ℕ → List ℕ × Bool
ext_of [] = ([], false)
ext_of (c ∷ cs) = if c == point then ext_loop 3 cs else ([], false)

unfoldable pub encode_83 : List ℕ → ShortName
encode_83 name =
    let (base, lower_base, rest) = base_loop 8 name in
    let (ext, lower_ext) = ext_of rest in
    record {
      name = padded 8 base;
      ext = padded 3 ext;
      lower_base = lower_base;
      lower_ext = lower_ext;
    }

unfoldable pub same_letters : List ℕ → List ℕ → Bool
same_letters [] [] = true
same_letters [] (b ∷ bs) = false
same_letters (a ∷ more) [] = false
same_letters (a ∷ more) (b ∷ bs) = (lowered true a == lowered true b) && same_letters more bs

unfoldable pub name_matches : ShortName → List ℕ → Bool
name_matches e name = same_letters (decode_83 e) name
