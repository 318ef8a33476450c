-- ===== src/Vfs/Bytes.antt =====
-- fs/vfs.cpp: a file of the ramfs is an array of bytes, and `ramfs_write` and `ramfs_read` change
-- and return the range that they are asked for.
use knail.Prelude.{
  ℕ, zero, suc, ◌+◌, ◌-◌, ◌^◌, ◌≤◌, ◌<◌, ◌≡◌, ◌≢◌, ◌⊎◌, inl, inr, refl, subst, ==_iff, ap, sym, ◌∙◌,
  Bool, true, false, ◌&&◌, List, [], ◌∷◌, ltb, leb, ◌==◌, if◌then◌else◌, get_or, set, replicate,
  length, arith, length-set, length-append, length-replicate, get_or-set_self, get_or-set_ne,
  get_or-append, get_or-cons, get_or-replicate, Bool-cases, ltb→lt,
}
use knail.Vfs.{VNode, Fs, kmalloc, kmalloc_from, kfree_some, set_node, set_bytes, put}
use knail.Vfs.Ramfs.{copy_out, copy_in, grown, new_capacity, regrown, grow_in, grow}

-- The buffer of a file of the ramfs: as long as the capacity, and clear behind the size.
pub record IsFile (node : VNode) (buf : List ℕ) : Type 0 where
  pub sized : length buf ≡ node.data_capacity
  pub size_in : node.size ≤ node.data_capacity
  pub clear : (i : ℕ) → node.size ≤ i → get_or buf i 0 ≡ 0
  pub null : node.data_ptr ≡ 0 → node.data_capacity ≡ 0

abbrev pub IsFileAt : Fs → ℕ → Type 0
IsFileAt fs p = IsFile (fs.nodes p) (fs.bytes (fs.nodes p).data_ptr)

-- The byte of the file at `i`, which is 0 behind the end.
abbrev pub byte_at : Fs → ℕ → ℕ → ℕ
byte_at fs p i = get_or (fs.bytes (fs.nodes p).data_ptr) i 0

-- An array of bytes with `src` written at `offset`.
abbrev pub patched : ℕ → List ℕ → (ℕ → ℕ) → ℕ → ℕ
patched offset src old i =
    if leb offset i && ltb i (offset + length src) then get_or src (i - offset) 0 else old i

pub length-copy_in : (src buf : List ℕ) (i : ℕ) → length (copy_in src i buf) ≡ length buf
unfolding copy_in
length-copy_in [] buf i = refl
length-copy_in (b ∷ bs) buf i = length-copy_in bs (set buf i b) (i + 1) ∙ length-set buf i b

pub length-copy_out : (n i : ℕ) (buf : List ℕ) → length (copy_out n i buf) ≡ n
unfolding copy_out
length-copy_out zero i buf = refl
length-copy_out (suc n) i buf = ap suc (length-copy_out n (i + 1) buf)

pub get_or-copy_out :
    (n i j : ℕ) (buf : List ℕ)
    → get_or (copy_out n i buf) j 0 ≡ (if ltb j n then get_or buf (i + j) 0 else 0)
unfolding copy_out
get_or-copy_out zero i j buf = ground arith
get_or-copy_out (suc n) i zero buf = ground arith
get_or-copy_out (suc n) i (suc j) buf = get_or-copy_out n (i + 1) j buf ∙ ground arith

patched-cons :
    (b : ℕ) (bs : List ℕ) (i j : ℕ) (old new : ℕ → ℕ)
    → new i ≡ b
    → (i ≢ j → new j ≡ old j)
    → patched (i + 1) bs new j ≡ patched i (b ∷ bs) old j
patched-cons b bs i j old new here there = ground (arith, get_or-cons b bs (j - i) 0)

pub get_or-copy_in :
    (src : List ℕ) (i j : ℕ) (buf : List ℕ)
    → i + length src ≤ length buf
    → get_or (copy_in src i buf) j 0 ≡ patched i src (λ k. get_or buf k 0) j
unfolding copy_in
get_or-copy_in [] i j buf h = ground arith
get_or-copy_in (b ∷ bs) i j buf h =
    get_or-copy_in bs (i + 1) j (set buf i b) (omega (arith, length-set buf i b))
    ∙ patched-cons b bs i j (λ k. get_or buf k 0) (λ k. get_or (set buf i b) k 0)
        (get_or-set_self buf i b 0 (omega arith)) (get_or-set_ne buf i j b 0)

get_or-grown :
    (node : VNode) (buf : List ℕ) (newcap i : ℕ)
    → IsFile node buf
    → get_or (grown node buf newcap) i 0 ≡ get_or buf i 0
unfolding grown
get_or-grown node buf newcap i file =
    get_or-append (copy_out node.size 0 buf) (replicate (newcap - node.size) 0) i 0
    ∙ elim (Bool-cases (ltb i node.size)) [
      | inl below ↦
          rw (length-copy_out node.size 0 buf, below)
            (get_or-copy_out node.size 0 i buf
              ∙ rw below (ap (λ (k : ℕ). get_or buf k 0) (omega arith)))
      | inr past ↦
          rw (length-copy_out node.size 0 buf, past)
            (get_or-replicate (newcap - node.size) (i - node.size) 0
              ∙ sym (file.clear i (ground arith)))
    ]

length-grown :
    (node : VNode) (buf : List ℕ) (newcap : ℕ)
    → node.size ≤ newcap
    → length (grown node buf newcap) ≡ newcap
unfolding grown
length-grown node buf newcap le = omega (
  arith,
  length-append (copy_out node.size 0 buf) (replicate (newcap - node.size) 0),
  length-copy_out node.size 0 buf,
  length-replicate {A = ℕ} (newcap - node.size) 0,
)

new_capacity-covers : (end : ℕ) → end < 2 ^ 62 → end ≤ new_capacity end
unfolding new_capacity
new_capacity-covers end h = ground arith

-- The descriptors, and what a call asks the node for.
abbrev pub SameCall : Fs → Fs → ℕ → Type 0
SameCall fs fs' p =
    ((fs'.nodes p).type ≡ (fs.nodes p).type)
    × ((fs'.nodes p).ops ≡ (fs.nodes p).ops)
    × (fs'.files ≡ fs.files)

-- Room for `end` bytes, with the bytes and the size of the file as they were.
pub record Roomy (fs fs' : Fs) (p end : ℕ) : Type 0 where
  pub valid : IsFileAt fs' p
  pub room : end ≤ (fs'.nodes p).data_capacity
  pub size : (fs'.nodes p).size ≡ (fs.nodes p).size
  pub bytes : (i : ℕ) → byte_at fs' p i ≡ byte_at fs p i
  pub same : SameCall fs fs' p

pub put_self {ℓ} : {A : Type ℓ} (p : ℕ) (v : A) (mem : ℕ → A) → put p v mem p ≡ v
unfolding put
put_self p v mem = ground arith

kmalloc_from-rest :
    (ps : List ℕ) (fs : Fs)
    → (kmalloc_from ps fs).1 ≡ record fs { supply = (kmalloc_from ps fs).1.supply }
unfolding kmalloc_from
kmalloc_from-rest [] fs = refl
kmalloc_from-rest (p ∷ ps) fs = refl

pub kmalloc-rest : (fs : Fs) → (kmalloc fs).1 ≡ record fs { supply = (kmalloc fs).1.supply }
unfolding kmalloc
kmalloc-rest fs = kmalloc_from-rest fs.supply fs

-- The outcome of the branch that makes room.
abbrev pub Grown : Fs → ℕ → ℕ → Bool × Fs → Type 0
Grown fs p end (made, fs') =
    ((made ≡ true) × Roomy fs fs' p end)
    ⊎ ((made ≡ false)
        × (fs' ≡ (kmalloc fs).1)
        × ((kmalloc fs).0 ≡ 0)
        × ((fs.nodes p).data_capacity < end))

-- What stands at a file's address and at its buffer's, behind two writes.
module _ (fs fs' : Fs) (p : ℕ) (node : VNode) (buf : List ℕ) where
  record Stands : Type 0 where
    at_node : fs'.nodes p ≡ node
    at_data : fs'.bytes node.data_ptr ≡ buf

  Stands-Roomy :
      (end : ℕ)
      → Stands
      → IsFile node buf
      → end ≤ node.data_capacity
      → node.size ≡ (fs.nodes p).size
      → ((i : ℕ) → get_or buf i 0 ≡ byte_at fs p i)
      → (node.type ≡ (fs.nodes p).type) × (node.ops ≡ (fs.nodes p).ops) × (fs'.files ≡ fs.files)
      → Roomy fs fs' p end
  Stands-Roomy end stands file le same_size same_bytes same_call = record {
    valid = rw (stands.at_node, stands.at_data) file;
    room = rw stands.at_node le;
    size = rw stands.at_node same_size;
    bytes = λ i. rw (stands.at_node, stands.at_data) (same_bytes i);
    same = (rw stands.at_node same_call.0, rw stands.at_node same_call.1, same_call.2);
  }

regrown-Roomy :
    (fs : Fs) (p newcap newbuf end : ℕ)
    → IsFileAt fs p
    → end ≤ newcap
    → (fs.nodes p).data_capacity < end
    → newbuf ≢ 0
    → Roomy fs (regrown p newcap newbuf fs) p end
unfolding regrown set_node set_bytes kfree_some
regrown-Roomy fs p newcap newbuf end file le lt ne =
    let node = fs.nodes p in
    let buf = fs.bytes node.data_ptr in
    Stands-Roomy fs (regrown p newcap newbuf fs) p
      (record node { data_ptr = newbuf; data_capacity = newcap }) (grown node buf newcap) end
      (record { at_node = put_self p _ fs.nodes; at_data = put_self newbuf _ fs.bytes })
      (record {
        sized = length-grown node buf newcap (omega (arith, file.size_in));
        size_in = omega (arith, file.size_in);
        clear = λ i h. get_or-grown node buf newcap i file ∙ file.clear i h;
        null = λ e. absurd (ne e);
      })
      le refl (λ i. get_or-grown node buf newcap i file) (refl, refl, refl)

grow_in-Grown :
    (fs : Fs) (ps : List ℕ) (p newcap end newbuf : ℕ)
    → kmalloc fs ≡ (newbuf, record fs { supply = ps })
    → IsFileAt fs p
    → end ≤ newcap
    → (fs.nodes p).data_capacity < end
    → Grown fs p end (grow_in p newcap (newbuf, record fs { supply = ps }))
unfolding grow_in
grow_in-Grown fs ps p newcap end newbuf e file le lt = elim (Bool-cases (newbuf == 0)) [
  | inl null ↦ rw (null, e) (inr (refl, refl, (==_iff newbuf 0).0 null, lt))
  | inr made ↦ rw made (
      inl (
        refl,
        (let r =
              regrown-Roomy (record fs { supply = ps }) p newcap newbuf end file le lt
                (ground arith) in
            record {
              valid = r.valid;
              room = r.room;
              size = r.size;
              bytes = r.bytes;
              same = r.same;
            }),
      ))
]

pub grow-Grown :
    (fs : Fs) (p end : ℕ) → IsFileAt fs p → end < 2 ^ 62 → Grown fs p end (grow p end fs)
unfolding grow
grow-Grown fs p end file small =
    let e : kmalloc fs ≡ ((kmalloc fs).0, record fs { supply = (kmalloc fs).1.supply }) =
      ap (λ (r : Fs). ((kmalloc fs).0, r)) (kmalloc-rest fs) in
    elim (Bool-cases (ltb (fs.nodes p).data_capacity end)) [
      | inl less ↦ rw less (
          subst (λ r. Grown fs p end (grow_in p (new_capacity end) r)) (sym e)
            (grow_in-Grown fs (kmalloc fs).1.supply p (new_capacity end) end (kmalloc fs).0 e file
              (new_capacity-covers end small) (ltb→lt _ _ less)))
      | inr enough ↦ rw enough (
          inl (
            refl,
            record {
              valid = file;
              room = ground arith;
              size = refl;
              bytes = λ i. refl;
              same = (refl, refl, refl);
            },
          ))
    ]
