-- ===== src/Vfs/Walks.antt =====
-- fs/vfs.cpp: the walk by one name after the other comes to an end.
use knail.Prelude.{
  ℕ, suc, ◌≡◌, refl, Option, some, ◌>>=◌, List, [], ◌∷◌, ◌==◌, if◌then◌else◌, Bool-cases, inl, inr,
}
use knail.Vfs.{Fs, kstreq, type_dir}
use knail.Vfs.Paths.{dot, find_child, enter}

-- From a node by one name after the other.
abbrev pub follow : ℕ → List (List ℕ) → ℕ → Fs → Option ℕ
follow rounds [] node fs = some node
follow rounds (name ∷ names) node fs =
    enter rounds name node fs
    >>= (λ next. if next == 0 then some 0 else follow rounds names next fs)

-- The list of siblings from a node on comes to its end before `rounds` steps.
pub data Siblings (fs : Fs) : ℕ → ℕ → Type 0 where
  last : (rounds : ℕ) → Siblings fs (suc rounds) 0
  next :
      (rounds child : ℕ)
      → Siblings fs rounds (fs.nodes child).next_sibling
      → Siblings fs (suc rounds) child

find_child-ends :
    (fs : Fs) {rounds child : ℕ} (name : List ℕ)
    → Siblings fs rounds child
    → (q : ℕ) × (find_child rounds child name fs ≡ some q)
unfolding find_child
find_child-ends fs name (last rounds) = (0, refl)
find_child-ends fs name (next rounds child more) = elim (Bool-cases (child == 0)) [
  | inl null ↦ (0, rw null refl)
  | inr node ↦ elim (Bool-cases (kstreq (fs.nodes child).name name)) [
    | inl here ↦ (child, rw (node, here) refl)
    | inr other ↦ let (q, e) = find_child-ends fs name more in (q, rw (node, other) e)
  ]
]

enter-ends :
    (rounds : ℕ) (name : List ℕ) (node : ℕ) (fs : Fs)
    → Siblings fs rounds (fs.nodes node).children
    → (q : ℕ) × (enter rounds name node fs ≡ some q)
unfolding enter
enter-ends rounds name node fs h = elim (Bool-cases (kstreq name (dot ∷ []))) [
  | inl same ↦ (node, rw same refl)
  | inr more ↦ elim (Bool-cases (kstreq name (dot ∷ dot ∷ []))) [
    | inl up ↦
        (if (fs.nodes node).parent == 0 then node else (fs.nodes node).parent, rw (more, up) refl)
    | inr down ↦ elim (Bool-cases ((fs.nodes node).type == type_dir)) [
      | inl dir ↦ let (q, e) = find_child-ends fs name h in (q, rw (more, down, dir) e)
      | inr file ↦ (0, rw (more, down, file) refl)
    ]
  ]
]

pub follow-ends :
    (rounds : ℕ) (names : List (List ℕ)) (node : ℕ) (fs : Fs)
    → ((p : ℕ) → Siblings fs rounds (fs.nodes p).children)
    → (q : ℕ) × (follow rounds names node fs ≡ some q)
follow-ends rounds [] node fs finite = (node, refl)
follow-ends rounds (name ∷ names) node fs finite =
    let (p, e) = enter-ends rounds name node fs (finite node) in
    elim (Bool-cases (p == 0)) [
      | inl null ↦ (0, rw e (rw null refl))
      | inr some_node ↦
          let (q, d) = follow-ends rounds names p fs finite in (q, rw e (rw some_node d))
    ]
