-- ===== src/Nucleus/Tree.antt =====
-- The tree of a process and its descendants, and the table of PCBs that holds it.
use pand_ossh.Common.{List, [], arith, copies, copies-append, suc, ℕ, ◌++◌, ◌+◌, ◌<◌, ◌∙◌, ◌∷◌, ◌≡◌}
use pand_ossh.Machine.{Pcb}

-- `node p f`: the process p with the trees of its children, the first child first.
mutual
  pub data Tree : Type 0 where
    node : ℕ → Forest → Tree

  pub data Forest : Type 0 where
    bare : Forest
    grow : Tree → Forest → Forest

abbrev pub root : Tree → ℕ
root (node p f) = p

abbrev pub roots : Forest → List ℕ
roots bare = []
roots (grow t f) = root t ∷ roots f

-- The processes in the order in which `terminateProcess` ends them: children before their parent.
unfoldable mutual
  pub members : Tree → List ℕ
  members (node p f) = forest_members f ++ p ∷ []

  pub forest_members : Forest → List ℕ
  forest_members bare = []
  forest_members (grow t f) = members t ++ forest_members f

-- The number of processes in a tree.
unfoldable mutual
  pub size : Tree → ℕ
  size (node p f) = suc (forest_size f)

  pub forest_size : Forest → ℕ
  forest_size bare = 0
  forest_size (grow x f) = size x + forest_size f

-- The children of each process of the tree are those that its PCB lists.
unfoldable mutual
  pub Family : (ℕ → Pcb) → Tree → Type 0
  Family t (node p f) = ((t p).p_child ≡ roots f) × Families t f

  pub Families : (ℕ → Pcb) → Forest → Type 0
  Families t bare = Unit {0}
  Families t (grow x f) = Family t x × Families t f

-- Only the lists of children of the members count.
mutual
  unfolding members Family

  pub Family-same :
      (t u : ℕ → Pcb) (x : Tree)
      → ((q : ℕ) → 0 < copies q (members x) → (u q).p_child ≡ (t q).p_child)
      → Family t x
      → Family u x
  Family-same t u (node p f) same (e, h) = (
    same p (ground (arith, copies-append p (forest_members f) (p ∷ []))) ∙ e,
    Families-same t u f (λ q w. same q (omega (arith, copies-append q (forest_members f) (p ∷ []))))
        h,
  )

  pub Families-same :
      (t u : ℕ → Pcb) (f : Forest)
      → ((q : ℕ) → 0 < copies q (forest_members f) → (u q).p_child ≡ (t q).p_child)
      → Families t f
      → Families u f
  Families-same t u bare same h = tt
  Families-same t u (grow x f) same (a, b) = (
    Family-same t u x
        (λ q w. same q (omega (arith, copies-append q (members x) (forest_members f)))) a,
    Families-same t u f
        (λ q w. same q (omega (arith, copies-append q (members x) (forest_members f)))) b,
  )

pub copies-root : (x : Tree) → 0 < copies (root x) (members x)
unfolding members
copies-root (node p f) = ground (arith, copies-append p (forest_members f) (p ∷ []))
