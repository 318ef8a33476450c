-- ===== src/Vfs/Created.antt =====
-- fs/vfs.cpp: `create_internal` in a directory of the ramfs.
use knail.Prelude.{
  ℕ, suc, ◌≡◌, ◌≢◌, refl, sym, ap, ap₂, ◌∙◌, subst, none, some, List, [], ◌∷◌, ◌==◌, true, false,
  arith,
}
use knail.Vfs.{
  VNode, Fs, kmalloc, kstrcpy, kstreq, alloc_vnode, add_child, set_node, put, blank, type_dir,
}
use knail.Vfs.Paths.{find_child, resolve_internal}
use knail.Vfs.Kept.{IsFresh, Grew, find_child-new, resolve_internal-kept}
use knail.Vfs.Bytes.{kmalloc-rest}
use knail.Vfs.Tree.{
  FileOps, ops_of, make_ramfs, make_with, make, attach, create_unless, create_in, ramfs,
}

pub set_node-same : (p : ℕ) (n : VNode) (fs : Fs) → (set_node p n fs).nodes p ≡ n
unfolding set_node put
set_node-same p n fs = ground arith

pub set_node-ne : (p q : ℕ) (n : VNode) (fs : Fs) → q ≢ p → (set_node p n fs).nodes q ≡ fs.nodes q
unfolding set_node put
set_node-ne p q n fs ne = ground arith

module _ (fs : Fs) (parent p : ℕ) (ne : parent ≢ p) where
  add_child-child :
      (add_child parent p fs).nodes p
      ≡ record (fs.nodes p) { parent = parent; next_sibling = (fs.nodes parent).children }
  unfolding add_child
  add_child-child =
      set_node-ne parent p _ _ (λ e. ne (sym e))
      ∙ set_node-same p _ _
      ∙ ap₂ (λ (n : VNode) (c : ℕ). record n { next_sibling = c }) (set_node-same p _ fs)
          (ap (λ (n : VNode). n.children) (set_node-ne p parent _ fs ne))

  add_child-other : (q : ℕ) → q ≢ p → q ≢ parent → (add_child parent p fs).nodes q ≡ fs.nodes q
  unfolding add_child
  add_child-other q off above =
      set_node-ne parent q _ _ above ∙ set_node-ne p q _ _ off ∙ set_node-ne p q _ fs off

  add_child-parent :
      (add_child parent p fs).nodes parent ≡ record (fs.nodes parent) { children = p }
  unfolding add_child
  add_child-parent =
      set_node-same parent _ _
      ∙ ap (λ (n : VNode). record n { children = p })
          (set_node-ne p parent _ _ ne ∙ set_node-ne p parent _ fs ne)

  add_child-root : (add_child parent p fs).root ≡ fs.root
  unfolding add_child set_node
  add_child-root = refl

  add_child-cwd : (add_child parent p fs).cwd ≡ fs.cwd
  unfolding add_child set_node
  add_child-cwd = refl

-- The allocation of a node, and the table of the ramfs.
abbrev new_file : Fs → ℕ → List ℕ → ℕ → Fs
new_file fs p leaf type =
    let fs1 = set_node p (blank leaf type) fs in
    set_node p (record (fs1.nodes p) { ops = ramfs }) fs1

make_ramfs-alloc_vnode :
    (tables : ℕ → FileOps) (fs : Fs) (leaf : List ℕ) (type p : ℕ)
    → (kmalloc fs).0 ≡ p
    → p ≢ 0
    → make_ramfs tables (alloc_vnode leaf type fs) ≡ (p, new_file (kmalloc fs).1 p leaf type)
unfolding make_ramfs alloc_vnode
make_ramfs-alloc_vnode tables fs leaf type p at_p live =
    let some_p : (p == 0) ≡ false = ground arith in rw (at_p, some_p, some_p) refl

module _ (fs : Fs) (p type : ℕ) (leaf : List ℕ) where
  new_file-node : (new_file fs p leaf type).nodes p ≡ record (blank leaf type) { ops = ramfs }
  new_file-node =
      set_node-same p _ _
      ∙ ap (λ (n : VNode). record n { ops = ramfs }) (set_node-same p (blank leaf type) fs)

  new_file-ne : (q : ℕ) → q ≢ p → (new_file fs p leaf type).nodes q ≡ fs.nodes q
  new_file-ne q ne = set_node-ne p q _ _ ne ∙ set_node-ne p q _ fs ne

  new_file-Grew :
      (parent : ℕ)
      → parent ≢ p
      → kstrcpy leaf 128 ≡ leaf
      → Grew fs (add_child parent p (new_file fs p leaf type)) parent p leaf
  unfolding set_node
  new_file-Grew parent ne cut =
      let fs1 = new_file fs p leaf type in
      let child = add_child-child fs1 parent p ne in
      record {
        root = add_child-root fs1 parent p ne;
        cwd = add_child-cwd fs1 parent p ne;
        name = ap (λ (n : VNode). n.name) child ∙ ap (λ (n : VNode). n.name) new_file-node ∙ cut;
        next_sibling =
            ap (λ (n : VNode). n.next_sibling) child
            ∙ ap (λ (n : VNode). n.children) (new_file-ne parent ne);
        at_parent =
            add_child-parent fs1 parent p ne
            ∙ ap (λ (n : VNode). record n { children = p }) (new_file-ne parent ne);
        others = λ q off above. add_child-other fs1 parent p ne q off above ∙ new_file-ne q off;
      }

make-alloc_vnode :
    (tables : ℕ → FileOps) (parent type : ℕ) (leaf : List ℕ) (fs : Fs)
    → (ops_of tables parent fs).create ≡ none
    → make tables parent leaf type fs ≡ make_ramfs tables (alloc_vnode leaf type fs)
unfolding make make_with
make-alloc_vnode tables parent type leaf fs native = rw native refl

create_unless-new :
    (tables : ℕ → FileOps) (parent type : ℕ) (leaf : List ℕ) (fs : Fs)
    → (ops_of tables parent fs).create ≡ none
    → (kmalloc fs).0 ≢ 0
    → create_unless tables parent leaf type fs 0 ≡ (
      (kmalloc fs).0,
      add_child parent (kmalloc fs).0 (new_file (kmalloc fs).1 (kmalloc fs).0 leaf type),
    )
unfolding create_unless attach
create_unless-new tables parent type leaf fs native live =
    let some_p : ((kmalloc fs).0 == 0) ≡ false = ground arith in
    rw
      (
        make-alloc_vnode tables parent type leaf fs native,
        make_ramfs-alloc_vnode tables fs leaf type (kmalloc fs).0 refl live,
        some_p,
      )
      refl

-- The new node is where the directory's search for its name leads, and what a path led to it still
-- leads to.
pub record Created (rounds : ℕ) (fs fs' : Fs) (parent p : ℕ) (leaf : List ℕ) : Type 0 where
  pub found : find_child (suc rounds) (fs'.nodes parent).children leaf fs' ≡ some p
  pub kept :
      (x : ℕ) (path : List ℕ)
      → x ≢ 0
      → resolve_internal rounds path fs ≡ some x
      → resolve_internal (suc rounds) path fs' ≡ some x

kstreq_refl : (a : List ℕ) → kstreq a a ≡ true
unfolding kstreq
kstreq_refl [] = refl
kstreq_refl (c ∷ cs) = ground (arith, kstreq_refl cs)

-- An allocation changes no node.
Grew-rest :
    (fs fs' : Fs) (parent p : ℕ) (leaf : List ℕ)
    → Grew (kmalloc fs).1 fs' parent p leaf
    → Grew fs fs' parent p leaf
Grew-rest fs fs' parent p leaf h =
    let g = subst (λ old. Grew old fs' parent p leaf) (kmalloc-rest fs) h in
    record {
      root = g.root;
      cwd = g.cwd;
      name = g.name;
      next_sibling = g.next_sibling;
      at_parent = g.at_parent;
      others = g.others;
    }

-- In a directory of the ramfs in which the search for the name ends without a child, and with an
-- allocation of an address that no pointer leads to, `create_internal` returns the new node; the
-- search for the name finds it, and every path leads to the node that it led to.
pub create_in-Created :
    (tables : ℕ → FileOps) (rounds parent type : ℕ) (leaf : List ℕ) (fs : Fs)
    → (ops_of tables parent fs).create ≡ none
    → parent ≢ 0
    → (fs.nodes parent).type ≡ type_dir
    → find_child rounds (fs.nodes parent).children leaf fs ≡ some 0
    → kstrcpy leaf 128 ≡ leaf
    → IsFresh (kmalloc fs).0 fs
    → parent ≢ (kmalloc fs).0
    → (fs' : Fs) × (create_in tables rounds leaf type fs parent ≡ some ((kmalloc fs).0, fs'))
      × Created rounds fs fs' parent (kmalloc fs).0 leaf
unfolding create_in
create_in-Created tables rounds parent type leaf fs native live is_dir absent cut fresh ne =
    let p = (kmalloc fs).0 in
    let fs' = add_child parent p (new_file (kmalloc fs).1 p leaf type) in
    let some_parent : (parent == 0) ≡ false = ground (arith, live) in
    let grew =
      Grew-rest fs fs' parent p leaf (new_file-Grew (kmalloc fs).1 p type leaf parent ne cut) in
    (
      fs',
      rw (some_parent, is_dir, absent)
          (ap (λ (r : ℕ × Fs). some r)
            (create_unless-new tables parent type leaf fs native fresh.live)),
      record {
        found =
            find_child-new fs p fresh fs' parent leaf grew rounds leaf ∙ rw (kstreq_refl leaf) refl;
        kept = resolve_internal-kept fs p fresh fs' parent leaf grew rounds absent;
      },
    )
