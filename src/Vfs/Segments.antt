-- ===== src/Vfs/Segments.antt =====
-- fs/vfs.cpp: `resolve_internal` follows the names between the slashes of a path.
use knail.Prelude.{
  ℕ, zero, suc, ◌+◌, ◌≤◌, ◌<◌, ◌≡◌, ◌≢◌, refl, sym, ap, subst, ◌∙◌, Option, some, ◌>>=◌, List, [],
  ◌∷◌, ◌==◌, if◌then◌else◌, length, Bool, true, false, All, arith, Bool-cases, ◌⊎◌, inl, inr,
  lt→ltb,
}
use knail.Vfs.{Fs}
use knail.Vfs.Walks.{follow, Siblings, follow-ends}
use knail.Vfs.Paths.{
  slash, skip_slashes, take_component, path_next, enter, resolve_round, resolve_loop, get_cwd,
  resolve_internal,
}

-- The text before the first slash, and those between the others, empty ones included.
abbrev pub pieces : List ℕ → List ℕ × List (List ℕ)
pieces [] = ([], [])
pieces (c ∷ cs) =
    let (first, others) = pieces cs in
    if c == slash then ([], first ∷ others) else (c ∷ first, others)

abbrev pub filled : List (List ℕ) → List (List ℕ)
filled [] = []
filled ([] ∷ more) = filled more
filled ((c ∷ cs) ∷ more) = (c ∷ cs) ∷ filled more

-- The names in a path.
abbrev pub segments : List ℕ → List (List ℕ)
segments path = let (first, others) = pieces path in filled (first ∷ others)

abbrev IsShort : List ℕ → Type 0
IsShort name = length name < 128

segments-skip : (p : List ℕ) → segments (skip_slashes p) ≡ segments p
unfolding skip_slashes
segments-skip [] = refl
segments-skip (c ∷ cs) = elim (Bool-cases (c == slash)) [
  | inl e ↦ rw e (segments-skip cs)
  | inr e ↦ rw (e, e) refl
]

length-skip : (p : List ℕ) → length (skip_slashes p) ≤ length p
unfolding skip_slashes
length-skip [] = omega arith
length-skip (c ∷ cs) = ground (arith, length-skip cs)

-- What the copying loop takes and leaves when the first piece is short: the names of the rest are
-- those behind the first piece.
record IsTaken (p : List ℕ) (taken : List ℕ × List ℕ) : Type 0 where
  first : taken.0 ≡ (pieces p).0
  others : segments taken.1 ≡ filled (pieces p).1
  shorter : length taken.1 + length taken.0 ≤ length p

IsTaken-slash : (c : ℕ) (cs : List ℕ) → (c == slash) ≡ true → IsTaken (c ∷ cs) ([], c ∷ cs)
IsTaken-slash c cs e = record { first = rw e refl; others = rw e refl; shorter = omega arith }

IsTaken-cons :
    (c : ℕ) (cs more rest : List ℕ)
    → (c == slash) ≡ false
    → IsTaken cs (more, rest)
    → IsTaken (c ∷ cs) (c ∷ more, rest)
IsTaken-cons c cs more rest e t = record {
  first = rw e (ap (λ (l : List ℕ). c ∷ l) t.first);
  others = rw e t.others;
  shorter = omega (arith, t.shorter);
}

take_component-IsTaken :
    (i : ℕ) (p : List ℕ) → i + length (pieces p).0 < 128 → IsTaken p (take_component i p 128)
unfolding take_component
take_component-IsTaken i [] h = record { first = refl; others = refl; shorter = omega arith }
take_component-IsTaken i (c ∷ cs) h = elim (Bool-cases (c == slash)) [
  | inl e ↦ rw e (IsTaken-slash c cs e)
  | inr e ↦
      let more : i + suc (length (pieces cs).0) < 128 = rw e at h in
      rw (e, lt→ltb (i + 1) 128 (omega arith))
        (IsTaken-cons c cs _ _ e (take_component-IsTaken (i + 1) cs (omega arith)))
]

skip_slashes-cases :
    (p : List ℕ)
    → (skip_slashes p ≡ [])
      ⊎ ((c : ℕ) × (cs : List ℕ) × (skip_slashes p ≡ c ∷ cs) × ((c == slash) ≡ false))
unfolding skip_slashes
skip_slashes-cases [] = inl refl
skip_slashes-cases (c ∷ cs) = elim (Bool-cases (c == slash)) [
  | inl e ↦ rw e (skip_slashes-cases cs)
  | inr e ↦ rw e (inr (c, cs, refl, e))
]

-- `path_next` takes the first name, and leaves a shorter path with the other names.
abbrev IsNext : List ℕ → List ℕ × List ℕ → Type 0
IsNext p ([], rest) = segments p ≡ []
IsNext p (c ∷ cs, rest) = (segments p ≡ (c ∷ cs) ∷ segments rest) × (length rest < length p)

IsTaken-IsNext :
    (p : List ℕ) (c : ℕ) (cs : List ℕ) (taken : List ℕ × List ℕ)
    → skip_slashes p ≡ c ∷ cs
    → (c == slash) ≡ false
    → IsTaken (c ∷ cs) taken
    → IsNext p taken
IsTaken-IsNext p c cs ([], rest) skipped e t =
    absurd (let first : [] ≡ c ∷ (pieces cs).0 = rw e at t.first in cc)
IsTaken-IsNext p c cs (x ∷ xs, rest) skipped e t =
    let first : x ∷ xs ≡ c ∷ (pieces cs).0 = rw e at t.first in
    let others : segments rest ≡ filled (pieces cs).1 = rw e at t.others in
    (
      sym (segments-skip p) ∙ rw (skipped, e, first, others) refl,
      omega (arith, t.shorter, length-skip p, ap (length {A = ℕ}) skipped),
    )

path_next-IsNext : (p : List ℕ) → All IsShort (segments p) → IsNext p (path_next p 128)
unfolding path_next take_component
path_next-IsNext p short = elim (skip_slashes-cases p) [
  | inl e ↦ rw e (sym (segments-skip p) ∙ rw e refl)
  | inr (c, cs, skipped, e) ↦
      let named : All IsShort (segments (skip_slashes p)) =
        subst (All IsShort) (sym (segments-skip p)) short in
      let first : IsShort (c ∷ (pieces cs).0) = (rw (skipped, e) at named).0 in
      rw skipped (
        IsTaken-IsNext p c cs (take_component 0 (c ∷ cs) 128) skipped e
          (take_component-IsTaken 0 (c ∷ cs) (rw e (omega arith))))
]

-- One round of the loop follows one name, when the loop on the rest follows the others.
resolve_round-follow :
    (rounds node : ℕ) (p : List ℕ) (fs : Fs) (taken : List ℕ × List ℕ) (loop : ℕ → Option ℕ)
    → All IsShort (segments p)
    → IsNext p taken
    → (length taken.1 < length p
        → All IsShort (segments taken.1)
        → (next : ℕ) → loop next ≡ follow rounds (segments taken.1) next fs)
    → resolve_round rounds taken.0 node fs loop ≡ follow rounds (segments p) node fs
unfolding resolve_round
resolve_round-follow rounds node p fs ([], rest) loop short none_left ih = rw none_left refl
resolve_round-follow rounds node p fs (c ∷ cs, rest) loop short next ih =
    let others : All IsShort (segments rest) = (rw next.0 at short).1 in
    rw next.0 (λ i.
      enter rounds (c ∷ cs) node fs >>= (λ q. if q == 0 then some 0 else ih next.1 others q i))

resolve_loop-follow :
    (n rounds : ℕ) (p : List ℕ) (node : ℕ) (fs : Fs)
    → length p < n
    → All IsShort (segments p)
    → resolve_loop n rounds p node fs ≡ follow rounds (segments p) node fs
unfolding resolve_loop
resolve_loop-follow zero rounds p node fs h short = absurd (omega arith)
resolve_loop-follow (suc n) rounds p node fs h short =
    resolve_round-follow rounds node p fs (path_next p 128)
      (λ next. resolve_loop n rounds (path_next p 128).1 next fs) short (path_next-IsNext p short)
      (λ less others next.
        resolve_loop-follow n rounds (path_next p 128).1 next fs (omega arith) others)

-- Where the walk for a path begins.
abbrev pub start : List ℕ → Fs → ℕ
start [] fs = 0
start (c ∷ cs) fs = if c == slash then fs.root else get_cwd fs

resolve_internal-steps :
    (rounds : ℕ) (path : List ℕ) (fs : Fs)
    → path ≢ []
    → All IsShort (segments path)
    → resolve_internal rounds path fs ≡ follow rounds (segments path) (start path fs) fs
unfolding resolve_internal
resolve_internal-steps rounds [] fs some_path short = absurd (some_path refl)
resolve_internal-steps rounds (c ∷ cs) fs some_path short = by_first (c == slash) refl
  where
    by_first :
        (t : Bool)
        → (c == slash) ≡ t
        → (if t
            then resolve_loop (suc (length cs)) rounds cs fs.root fs
            else resolve_loop (suc (suc (length cs))) rounds (c ∷ cs) (get_cwd fs) fs)
          ≡ follow rounds (segments (c ∷ cs)) (if t then fs.root else get_cwd fs) fs
    by_first true e =
        let same : segments (c ∷ cs) ≡ segments cs = rw e refl in
        let others : All IsShort (segments cs) = rw e at short in
        resolve_loop-follow (suc (length cs)) rounds cs fs.root fs (omega arith) others
        ∙ ap (λ names. follow rounds names fs.root fs) (sym same)
    by_first false e =
        resolve_loop-follow (suc (suc (length cs))) rounds (c ∷ cs) (get_cwd fs) fs (omega arith)
          short

-- For a path that is not empty and whose names are shorter than 128 characters, and where the
-- children of every node come to an end before `rounds` steps, `resolve_internal` ends with the
-- node, or the null pointer, to which the names between the slashes lead, from the root for a path
-- that begins with a slash, and otherwise from the working directory.
pub resolve_internal-follow :
    (rounds : ℕ) (path : List ℕ) (fs : Fs)
    → path ≢ []
    → All IsShort (segments path)
    → ((p : ℕ) → Siblings fs rounds (fs.nodes p).children)
    → (q : ℕ) × (resolve_internal rounds path fs ≡ some q)
      × (follow rounds (segments path) (start path fs) fs ≡ some q)
resolve_internal-follow rounds path fs some_path short finite =
    let (q, e) = follow-ends rounds (segments path) (start path fs) fs finite in
    (q, resolve_internal-steps rounds path fs some_path short ∙ e, e)
