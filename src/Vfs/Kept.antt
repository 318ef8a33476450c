-- ===== src/Vfs/Kept.antt =====
-- fs/vfs.cpp: a new child of a directory leaves what every path leads to.
use knail.Prelude.{
  ℕ, zero, suc, ◌≡◌, ◌≢◌, refl, sym, ap, length, ◌∙◌, subst, Option, none, some, List, [], ◌∷◌,
  ◌==◌, ==_iff, if◌then◌else◌, true, false, arith, Bool-cases, Option-cases, inl, inr,
}
use knail.Vfs.{VNode, Fs, kstreq, type_dir}
use knail.Vfs.Paths.{
  slash, dot, path_next, find_child, enter, resolve_round, resolve_loop, get_cwd, resolve_internal,
}

-- No pointer leads to `p`.
pub record IsFresh (p : ℕ) (fs : Fs) : Type 0 where
  pub live : p ≢ 0
  pub root : fs.root ≢ p
  pub cwd : fs.cwd ≢ p
  pub children : (q : ℕ) → (fs.nodes q).children ≢ p
  pub next_sibling : (q : ℕ) → (fs.nodes q).next_sibling ≢ p
  pub parent : (q : ℕ) → (fs.nodes q).parent ≢ p

-- `fs'` is `fs` with `p` of that name as the first child of `parent`.
pub record Grew (fs fs' : Fs) (parent p : ℕ) (leaf : List ℕ) : Type 0 where
  pub root : fs'.root ≡ fs.root
  pub cwd : fs'.cwd ≡ fs.cwd
  pub name : (fs'.nodes p).name ≡ leaf
  pub next_sibling : (fs'.nodes p).next_sibling ≡ (fs.nodes parent).children
  pub at_parent : fs'.nodes parent ≡ record (fs.nodes parent) { children = p }
  pub others : (q : ℕ) → q ≢ p → q ≢ parent → fs'.nodes q ≡ fs.nodes q

pub kstreq→eq : (a b : List ℕ) → kstreq a b ≡ true → a ≡ b
unfolding kstreq
kstreq→eq [] [] h = refl
kstreq→eq [] (y ∷ ys) h = absurd cc
kstreq→eq (x ∷ xs) [] h = absurd cc
kstreq→eq (x ∷ xs) (y ∷ ys) h = ground (arith, kstreq→eq xs ys)

-- A search among the children that finds a node finds it in more rounds too.
pub find_child-suc :
    (r c x : ℕ) (name : List ℕ) (fs : Fs)
    → find_child r c name fs ≡ some x
    → find_child (suc r) c name fs ≡ some x
unfolding find_child
find_child-suc zero c x name fs h = absurd cc
find_child-suc (suc r) c x name fs h = elim (Bool-cases (c == 0)) [
  | inl e ↦ rw e (rw e at h)
  | inr e ↦ elim (Bool-cases (kstreq (fs.nodes c).name name)) [
    | inl f ↦ rw (e, f) (rw (e, f) at h)
    | inr f ↦ rw (e, f) (find_child-suc r (fs.nodes c).next_sibling x name fs (rw (e, f) at h))
  ]
]

module _ (fs : Fs) (p : ℕ) (fresh : IsFresh p fs) where
  find_child-ne : (r c x : ℕ) (name : List ℕ) → c ≢ p → find_child r c name fs ≡ some x → x ≢ p
  unfolding find_child
  find_child-ne zero c x name ne h = absurd cc
  find_child-ne (suc r) c x name ne h = elim (Bool-cases (c == 0)) [
    | inl e ↦ let null : some 0 ≡ some x = rw e at h in λ f. fresh.live cc
    | inr e ↦ elim (Bool-cases (kstreq (fs.nodes c).name name)) [
      | inl f ↦ let found : some c ≡ some x = rw (e, f) at h in λ g. ne cc
      | inr f ↦
          find_child-ne r (fs.nodes c).next_sibling x name (fresh.next_sibling c) (rw (e, f) at h)
    ]
  ]

  module _ (fs' : Fs) (parent : ℕ) (leaf : List ℕ) (grew : Grew fs fs' parent p leaf) where
    -- All but the children of an older node stay as they were.
    old_node :
        (q : ℕ) → q ≢ p → fs'.nodes q ≡ record (fs.nodes q) { children = (fs'.nodes q).children }
    old_node q ne = elim (Bool-cases (q == parent)) [
      | inl e ↦ rw ((==_iff q parent).0 e, grew.at_parent) refl
      | inr e ↦ rw (grew.others q ne (ground arith)) refl
    ]

    find_child-kept :
        (r c : ℕ) (name : List ℕ) → c ≢ p → find_child r c name fs' ≡ find_child r c name fs
    unfolding find_child
    find_child-kept zero c name ne = refl
    find_child-kept (suc r) c name ne =
        rw
          (
            ap (λ (n : VNode). n.name) (old_node c ne),
            ap (λ (n : VNode). n.next_sibling) (old_node c ne),
            find_child-kept r (fs.nodes c).next_sibling name (fresh.next_sibling c),
          )
          refl

    -- In the directory itself: the new child comes first.
    pub find_child-new :
        (r : ℕ) (name : List ℕ)
        → find_child (suc r) (fs'.nodes parent).children name fs'
          ≡ (if kstreq leaf name then some p else find_child r (fs.nodes parent).children name fs)
    unfolding find_child
    find_child-new r name =
        let live : (p == 0) ≡ false = ground (arith, fresh.live) in
        rw
          (
            grew.at_parent,
            live,
            grew.name,
            grew.next_sibling,
            find_child-kept r (fs.nodes parent).children name (fresh.children parent),
          )
          refl

    module _ (r : ℕ) (absent : find_child r (fs.nodes parent).children leaf fs ≡ some 0) where
      unless_leaf :
          (x : ℕ) (name : List ℕ)
          → x ≢ 0
          → find_child r (fs.nodes parent).children name fs ≡ some x
          → (if kstreq leaf name then some p else find_child r (fs.nodes parent).children name fs)
            ≡ some x
      unless_leaf x name found h = elim (Bool-cases (kstreq leaf name)) [
        | inl e ↦ let same : leaf ≡ name = kstreq→eq leaf name e in absurd (found cc)
        | inr e ↦ rw e h
      ]

      children-kept :
          (node x : ℕ) (name : List ℕ)
          → node ≢ p
          → x ≢ 0
          → find_child r (fs.nodes node).children name fs ≡ some x
          → find_child (suc r) (fs'.nodes node).children name fs' ≡ some x
      children-kept node x name ne found h = elim (Bool-cases (node == parent)) [
        | inl e ↦
            rw ((==_iff node parent).0 e) (
              find_child-new r name ∙ unless_leaf x name found (rw ((==_iff node parent).0 e) at h))
        | inr e ↦ rw (grew.others node ne (ground arith)) (
            find_child-kept (suc r) (fs.nodes node).children name (fresh.children node)
            ∙ find_child-suc r (fs.nodes node).children x name fs h)
      ]

      enter-kept :
          (node x : ℕ) (name : List ℕ)
          → node ≢ p
          → x ≢ 0
          → enter r name node fs ≡ some x
          → (enter (suc r) name node fs' ≡ some x) × (x ≢ p)
      unfolding enter
      enter-kept node x name ne found h = elim (Bool-cases (kstreq name (dot ∷ []))) [
        | inl e ↦ let stay : some node ≡ some x = rw e at h in (rw e stay, λ g. ne cc)
        | inr e ↦ elim (Bool-cases (kstreq name (dot ∷ dot ∷ []))) [
          | inl f ↦
              let above : some
                    (if (fs.nodes node).parent == 0 then node else (fs.nodes node).parent)
                  ≡ some x =
                rw (e, f) at h in
              (rw (e, f, old_parent) above, above_ne above)
          | inr f ↦ elim (Bool-cases ((fs.nodes node).type == type_dir)) [
            | inl g ↦
                let h' : find_child r (fs.nodes node).children name fs ≡ some x =
                  rw (e, f, g) at h in
                (
                  rw (e, f, old_type, g) (children-kept node x name ne found h'),
                  find_child-ne r (fs.nodes node).children x name (fresh.children node) h',
                )
            | inr g ↦ let null : some 0 ≡ some x = rw (e, f, g) at h in absurd (found cc)
          ]
        ]
      ]
        where
          old_type : (fs'.nodes node).type ≡ (fs.nodes node).type
          old_type = ap (λ (n : VNode). n.type) (old_node node ne)

          old_parent : (fs'.nodes node).parent ≡ (fs.nodes node).parent
          old_parent = ap (λ (n : VNode). n.parent) (old_node node ne)

          above_ne :
              some (if (fs.nodes node).parent == 0 then node else (fs.nodes node).parent) ≡ some x
              → x ≢ p
          above_ne above = elim (Bool-cases ((fs.nodes node).parent == 0)) [
            | inl e ↦ let here : some node ≡ some x = rw e at above in λ g. ne cc
            | inr e ↦
                let there : some (fs.nodes node).parent ≡ some x = rw e at above in
                λ g. fresh.parent node cc
          ]

      round-kept :
          (node x : ℕ) (component : List ℕ) (loop loop' : ℕ → Option ℕ)
          → node ≢ p
          → x ≢ 0
          → ((next : ℕ) → next ≢ p → loop next ≡ some x → loop' next ≡ some x)
          → resolve_round r component node fs loop ≡ some x
          → resolve_round (suc r) component node fs' loop' ≡ some x
      unfolding resolve_round
      round-kept node x [] loop loop' ne found ih h = h
      round-kept node x (c ∷ cs) loop loop' ne found ih h =
          elim (Option-cases (enter r (c ∷ cs) node fs)) [
            | inl e ↦ absurd (let stuck : none ≡ some x = rw e at h in cc)
            | inr (y, e) ↦ elim (Bool-cases (y == 0)) [
              | inl null ↦ absurd (let stuck : some 0 ≡ some x = rw (e, null) at h in found cc)
              | inr real ↦
                  let step = enter-kept node y (c ∷ cs) ne (ground arith) e in
                  rw (step.0, real) (ih y step.1 (rw (e, real) at h))
            ]
          ]

      resolve_loop-kept :
          (n node x : ℕ) (path : List ℕ)
          → node ≢ p
          → x ≢ 0
          → resolve_loop n r path node fs ≡ some x
          → resolve_loop n (suc r) path node fs' ≡ some x
      unfolding resolve_loop
      resolve_loop-kept zero node x path ne found h = absurd cc
      resolve_loop-kept (suc n) node x path ne found h =
          let rest = (path_next path 128).1 in
          round-kept node x (path_next path 128).0 (λ next. resolve_loop n r rest next fs)
            (λ next. resolve_loop n (suc r) rest next fs') ne found
            (λ next ne'. resolve_loop-kept n next x rest ne' found) h

      start-kept : get_cwd fs' ≡ get_cwd fs
      unfolding get_cwd
      start-kept = rw (grew.root, grew.cwd) refl

      start-ne : get_cwd fs ≢ p
      unfolding get_cwd
      start-ne = elim (Bool-cases (fs.cwd == 0)) [
        | inl e ↦ rw e fresh.root
        | inr e ↦ rw e fresh.cwd
      ]

      pub resolve_internal-kept :
          (x : ℕ) (path : List ℕ)
          → x ≢ 0
          → resolve_internal r path fs ≡ some x
          → resolve_internal (suc r) path fs' ≡ some x
      unfolding resolve_internal
      resolve_internal-kept x [] found h = absurd (found cc)
      resolve_internal-kept x (c ∷ cs) found h = elim (Bool-cases (c == slash)) [
        | inl e ↦ rw e (
            subst (λ q. resolve_loop (suc (length cs)) (suc r) cs q fs' ≡ some x) (sym grew.root)
              (resolve_loop-kept (suc (length cs)) fs.root x cs fresh.root found (rw e at h)))
        | inr e ↦
            rw (e, start-kept)
              (resolve_loop-kept (suc (suc (length cs))) (get_cwd fs) x (c ∷ cs) start-ne found
                (rw e at h))
      ]
