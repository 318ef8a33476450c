-- ===== src/Vfs/Paths.antt =====
-- fs/vfs.cpp: `path_next`, `resolve_internal`, `resolve_parent` and `get_cwd`. `rounds` bounds the
-- walk over the children of a node; a walk that is longer has no result. A null `VNode*` is 0.
use knail.Prelude.{
  ℕ, zero, suc, ◌+◌, Option, none, some, ◌>>=◌, List, [], ◌∷◌, ltb, leb, ◌==◌, if◌then◌else◌, take,
  drop, length,
}
use knail.Vfs.{Fs, kstreq, kstrcpy, type_dir}

-- `'/'` and `'.'`
abbrev pub slash : ℕ
slash = 47

abbrev pub dot : ℕ
dot = 46

unfoldable pub skip_slashes : List ℕ → List ℕ
skip_slashes [] = []
skip_slashes (c ∷ cs) = let rest = skip_slashes cs in if c == slash then rest else c ∷ cs

-- The copying loop of `path_next`: the component and the rest of the path.
unfoldable pub take_component : ℕ → List ℕ → ℕ → List ℕ × List ℕ
take_component i [] max = ([], [])
take_component i (c ∷ cs) max =
    let (more, rest) = take_component (i + 1) cs max in
    if c == slash then ([], c ∷ cs) else if ltb (i + 1) max then (c ∷ more, rest) else ([], c ∷ cs)

unfoldable pub path_next : List ℕ → ℕ → List ℕ × List ℕ
path_next path max = take_component 0 (skip_slashes path) max

-- The walk over the children: the child of that name, or 0.
unfoldable pub find_child : ℕ → ℕ → List ℕ → Fs → Option ℕ
find_child zero child name fs = none
find_child (suc rounds) child name fs =
    let rest = find_child rounds (fs.nodes child).next_sibling name fs in
    if child == 0 then some 0 else if kstreq (fs.nodes child).name name then some child else rest

-- One round of `resolve_internal`: the node behind a component that is not empty, 0 for none.
unfoldable pub enter : ℕ → List ℕ → ℕ → Fs → Option ℕ
enter rounds component node fs =
    if kstreq component (dot ∷ [])
    then some node
    else if kstreq component (dot ∷ dot ∷ [])
    then some (if (fs.nodes node).parent == 0 then node else (fs.nodes node).parent)
    else if (fs.nodes node).type == type_dir
    then find_child rounds (fs.nodes node).children component fs
    else some 0

-- What a round does with the component and with the loop on the rest of the path.
unfoldable pub resolve_round : ℕ → List ℕ → ℕ → Fs → (ℕ → Option ℕ) → Option ℕ
resolve_round rounds [] node fs loop = some node
resolve_round rounds (c ∷ cs) node fs loop =
    enter rounds (c ∷ cs) node fs >>= (λ next. if next == 0 then some 0 else loop next)

-- The loop, on the rounds that its components take.
unfoldable pub resolve_loop : ℕ → ℕ → List ℕ → ℕ → Fs → Option ℕ
resolve_loop zero rounds p node fs = none
resolve_loop (suc n) rounds p node fs =
    let (component, rest) = path_next p 128 in
    resolve_round rounds component node fs (λ next. resolve_loop n rounds rest next fs)

unfoldable pub get_cwd : Fs → ℕ
get_cwd fs = if fs.cwd == 0 then fs.root else fs.cwd

unfoldable pub resolve_internal : ℕ → List ℕ → Fs → Option ℕ
resolve_internal rounds [] fs = some 0
resolve_internal rounds (c ∷ cs) fs =
    if c == slash
    then resolve_loop (suc (length cs)) rounds cs fs.root fs
    else resolve_loop (suc (suc (length cs))) rounds (c ∷ cs) (get_cwd fs) fs

-- The scan for the last slash, which keeps its index.
unfoldable pub last_slash : ℕ → List ℕ → Option ℕ → Option ℕ
last_slash i [] found = found
last_slash i (c ∷ cs) found = last_slash (i + 1) cs (if c == slash then some i else found)

-- The parent of a path with a slash at `last`. A longer prefix than the 255 characters that
-- `parent_path` holds before the NUL is a write behind the array, and has no result.
unfoldable pub parent_at : ℕ → ℕ → List ℕ → Fs → Option ℕ
parent_at rounds last path fs =
    let plen = if last == 0 then 1 else last in
    if leb plen 255 then resolve_internal rounds (take plen path) fs else none

-- The leaf's name and the parent.
unfoldable pub resolve_parent : ℕ → List ℕ → ℕ → Fs → List ℕ × Option ℕ
resolve_parent rounds path max fs = elim (last_slash 0 path none) [
  | none ↦ (kstrcpy path max, some (get_cwd fs))
  | some last ↦ (kstrcpy (drop (last + 1) path) max, parent_at rounds last path fs)
]
