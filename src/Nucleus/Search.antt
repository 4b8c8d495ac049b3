-- ===== src/Nucleus/Search.antt =====
-- `findPcbByPid` of phase2/src/syscall.c.
use pand_ossh.Asl.Waiting.{blocked}
use pand_ossh.Common.{
  ==_iff, Bool-cases, List, Option, [], ap, arith, copies, copies-append, inl, inr, ltb, none, refl,
  some, subst, suc, sym, zero, ℕ, ◌++◌, ◌<◌, ◌==◌, ◌>>=◌, ◌∙◌, ◌∷◌, ◌≡◌, ◌≢◌, ◌≤◌,
}
use pand_ossh.Nucleus.Tree.{
  bare, grow, node, node, grow, Tree, Forest, Family, Families, members, forest_members, size,
  forest_size, root, roots,
}
use pand_ossh.Terminate.{
  search_in_tree, first_found, find_pid, search_semds, search_blocked_by_pid, search_current,
  find_pcb_by_pid, search_fuel,
}
use pand_ossh.Machine.{Pcb, Semd, Kernel, maxproc}

-- A search over these PCBs ended: with one of them that has the PID, or with NULL and none has it.
pub data Searched (t : ℕ → Pcb) (pid : ℕ) (ps : List ℕ) : Option (Option ℕ) → Type 0 where
  hit : (p : ℕ) → 0 < copies p ps → (t p).p_pid ≡ pid → Searched t pid ps (some (some p))
  miss : ((q : ℕ) → 0 < copies q ps → (t q).p_pid ≢ pid) → Searched t pid ps (some none)

-- Each tree has at most n processes.
abbrev pub AllSmall : ℕ → Forest → Type 0
AllSmall n bare = Unit {0}
AllSmall n (grow x f) = (size x ≤ n) × AllSmall n f

forest_size-AllSmall : (n : ℕ) (f : Forest) → forest_size f ≤ n → AllSmall n f
unfolding size
forest_size-AllSmall n bare w = tt
forest_size-AllSmall n (grow x f) w =
    (omega (arith, w), forest_size-AllSmall n f (omega (arith, w)))

-- First these PCBs, then those.
Searched-then :
    (t : ℕ → Pcb) (pid : ℕ) (ps qs : List ℕ) (o r : Option (Option ℕ))
    → Searched t pid ps o
    → Searched t pid qs r
    → Searched t pid
        (ps ++ qs)
        (elim o [ none ↦ none | some none ↦ r | some (some p) ↦ some (some p) ])
Searched-then t pid ps qs o r (hit p w e) h = hit p (omega (arith, copies-append p ps qs, w)) e
Searched-then t pid ps qs o r (miss away) (hit p w e) =
    hit p (omega (arith, copies-append p ps qs, w)) e
Searched-then t pid ps qs o r (miss away) (miss other) = miss (λ q w e.
    elim (Bool-cases (ltb 0 (copies q ps))) [
      | inl here ↦ away q (ground (arith, here)) e
      | inr gone ↦ other q (ground (arith, gone, copies-append q ps qs, w)) e
    ])

Searched-last :
    (t : ℕ → Pcb) (pid p : ℕ) (ps : List ℕ) (o : Option (Option ℕ))
    → (t p).p_pid ≢ pid
    → Searched t pid ps o
    → Searched t pid (ps ++ p ∷ []) o
Searched-last t pid p ps o ne (hit q w e) = hit q (omega (arith, copies-append q ps (p ∷ []), w)) e
Searched-last t pid p ps o ne (miss away) = miss (λ q w e. elim (Bool-cases (q == p)) [
  | inl same ↦ ne (ap (λ x. (t x).p_pid) (sym ((==_iff q p).0 same)) ∙ e)
  | inr other ↦ away q (ground (arith, other, copies-append q ps (p ∷ []), w)) e
])

Searched-first :
    (t : ℕ → Pcb) (pid p : ℕ) (ps : List ℕ) (o : Option (Option ℕ))
    → (t p).p_pid ≢ pid
    → Searched t pid ps o
    → Searched t pid (p ∷ ps) o
Searched-first t pid p ps o ne (hit q w e) = hit q (ground (arith, w)) e
Searched-first t pid p ps o ne (miss away) = miss (λ q w e. elim (Bool-cases (q == p)) [
  | inl same ↦ ne (ap (λ x. (t x).p_pid) (sym ((==_iff q p).0 same)) ∙ e)
  | inr other ↦ away q (ground (arith, other, w)) e
])

mutual
  unfolding search_in_tree first_found members size Family

  search_in_tree-Searched :
      (t : ℕ → Pcb) (pid n : ℕ) (x : Tree)
      → Family t x
      → size x ≤ n
      → Searched t pid (members x) (search_in_tree t pid n (root x))
  search_in_tree-Searched t pid zero (node p f) (e, h) w = absurd (omega (arith, w))
  search_in_tree-Searched t pid (suc n) (node p f) (e, h) w =
      elim (Bool-cases ((t p).p_pid == pid)) [
        | inl same ↦ rw same (
            hit p (ground (arith, copies-append p (forest_members f) (p ∷ [])))
              ((==_iff _ pid).0 same))
        | inr other ↦
            rw (other, e)
              (Searched-last t pid p (forest_members f) _ (λ z. cc (other, (==_iff _ pid).1 z))
                (first_found-Searched t pid n f h (forest_size-AllSmall n f (omega (arith, w)))))
      ]

  first_found-Searched :
      (t : ℕ → Pcb) (pid n : ℕ) (f : Forest)
      → Families t f
      → AllSmall n f
      → Searched t pid (forest_members f) (first_found (search_in_tree t pid n) (roots f))
  first_found-Searched t pid n bare h s = miss (λ q w. absurd (omega (arith, w)))
  first_found-Searched t pid n (grow x f) (a, h) (w, s) =
      Searched-then t pid (members x) (forest_members f) _ _ (search_in_tree-Searched t pid n x a w)
        (first_found-Searched t pid n f h s)

find_pid-Searched :
    (t : ℕ → Pcb) (pid : ℕ) (ps : List ℕ) → Searched t pid ps (some (find_pid t pid ps))
unfolding find_pid
find_pid-Searched t pid [] = miss (λ q w. absurd (omega (arith, w)))
find_pid-Searched t pid (p ∷ ps) = elim (Bool-cases ((t p).p_pid == pid)) [
  | inl same ↦ rw same (hit p (ground arith) ((==_iff _ pid).0 same))
  | inr other ↦ rw other (
      Searched-first t pid p ps _ (λ z. cc (other, (==_iff _ pid).1 z))
        (find_pid-Searched t pid ps))
]

semds-step :
    (t : ℕ → Pcb) (pid : ℕ) (ps qs : List ℕ) (m r : Option ℕ)
    → Searched t pid ps (some m)
    → Searched t pid qs (some r)
    → Searched t pid (ps ++ qs) (some (elim m [ none ↦ r | some p ↦ some p ]))
semds-step t pid ps qs none r h g = Searched-then t pid ps qs (some none) (some r) h g
semds-step t pid ps qs (some p) r h g = Searched-then t pid ps qs (some (some p)) (some r) h g

search_semds-Searched :
    (t : ℕ → Pcb) (pid : ℕ) (ss : List Semd)
    → Searched t pid (blocked ss) (some (search_semds t pid ss))
unfolding search_semds
search_semds-Searched t pid [] = miss (λ q w. absurd (omega (arith, w)))
search_semds-Searched t pid (s ∷ ss) =
    semds-step t pid s.s_procq (blocked ss) _ _ (find_pid-Searched t pid s.s_procq)
      (search_semds-Searched t pid ss)

-- The PCBs on the CPU.
abbrev pub listed : Option ℕ → List ℕ
listed none = []
listed (some c) = c ∷ []

unchanged :
    (o : Option (Option ℕ))
    → elim o [ none ↦ none | some none ↦ some none | some (some p) ↦ some (some p) ] ≡ o
unchanged none = refl
unchanged (some none) = refl
unchanged (some (some p)) = refl

first_found-one : (g : ℕ → Option (Option ℕ)) (c : ℕ) → first_found g (c ∷ []) ≡ g c
unfolding first_found
first_found-one g c = unchanged (g c)

current-first_found :
    (t : ℕ → Pcb) (n pid : ℕ) (m : Option ℕ)
    → elim m [ none ↦ some none | some c ↦ search_in_tree t pid n c ]
      ≡ first_found (search_in_tree t pid n) (listed m)
unfolding first_found
current-first_found t n pid none = refl
current-first_found t n pid (some c) = sym (first_found-one (search_in_tree t pid n) c)

-- A search, and another one if it gave NULL.
Searched-or :
    (t : ℕ → Pcb) (pid : ℕ) (ps qs : List ℕ) (o r : Option (Option ℕ))
    → Searched t pid ps o
    → Searched t pid qs r
    → Searched t pid (ps ++ qs) (o >>= λ x. elim x [ some p ↦ some (some p) | none ↦ r ])
Searched-or t pid ps qs o r (hit p w e) h =
    Searched-then t pid ps qs (some (some p)) r (hit p w e) h
Searched-or t pid ps qs o r (miss away) h = Searched-then t pid ps qs (some none) r (miss away) h

-- `findPcbByPid` ends, for all trees of at most 20 processes below the current process and below the
-- ready ones. It finds a process with the PID if the current process or a descendant of it, a ready
-- process or a descendant of it, or a process that waits on a semaphore has it, and else NULL.
pub find_pcb_by_pid-Searched :
    (pid : ℕ) (k : Kernel) (now later : Forest)
    → roots now ≡ listed k.curr_proc
    → roots later ≡ k.ready_queue
    → Families k.pcb_table now
    → Families k.pcb_table later
    → AllSmall maxproc now
    → AllSmall maxproc later
    → Searched k.pcb_table pid
        (forest_members now ++ (forest_members later ++ blocked k.asl))
        (find_pcb_by_pid search_fuel pid k)
unfolding find_pcb_by_pid search_current search_blocked_by_pid
find_pcb_by_pid-Searched pid k now later e0 e1 f0 f1 s0 s1 =
    let n = search_fuel in
    let t = k.pcb_table in
    Searched-or t pid (forest_members now) (forest_members later ++ blocked k.asl) _ _
      (subst (Searched t pid (forest_members now))
        (ap (first_found (search_in_tree t pid n)) e0
          ∙ sym (current-first_found t n pid k.curr_proc))
        (first_found-Searched t pid n now f0 s0))
      (Searched-or t pid (forest_members later) (blocked k.asl) _ _
        (subst (λ l. Searched t pid (forest_members later) (first_found (search_in_tree t pid n) l))
          e1 (first_found-Searched t pid n later f1 s1))
        (search_semds-Searched t pid k.asl))
