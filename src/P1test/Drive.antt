-- ===== src/P1test/Drive.antt =====
-- `main` of phase1/p1test.c, part by part.
use pand_ossh.Common.{ℕ, zero, suc, Option, not, ◌+◌, ◌*◌, ◌==◌, ◌||◌, [], ◌-◌, if◌then◌else◌}
use pand_ossh.P1test.{
  Transmitter, Test, addokbuf, fail_if, pure, change, alloc, free, insert, head, take, out,
  queue_is_empty, has_no_child, add_child, drop_child, leave_tree, block, unblock, first_blocked,
  out_of_asl, set_prio, same, non_null, is_null, procp_at, set_procp, ◌>>=◌, ◌>>◌,
}
use pand_ossh.Machine.{Platform, maxproc, wordlen}
use pand_ossh.Pcb.{init_pcbs}
use pand_ossh.Asl.{init_asl}
use Prim.Native.String.{String}

-- The addresses of `sem` and `onesem`.
pub record Places : Type 0 where
  pub sem : ℕ
  pub onesem : ℕ

-- `&sem[i]`
abbrev pub sem_at : Places → ℕ → ℕ
sem_at A i = A.sem + i * wordlen

module _ (P : Platform) (D : Transmitter) where
  -- The loops that fill, and return, entries of `procp` from i on.
  unfoldable pub alloc_all : (i left : ℕ) → Test (Unit {0})
  alloc_all i zero = pure tt
  alloc_all i (suc left) = do
    o ← alloc P
    set_procp i o
    fail_if D (is_null o) "allocPcb: unexpected NULL   \n"
    alloc_all (suc i) left

  unfoldable pub free_all : (i left : ℕ) → Test (Unit {0})
  free_all i zero = pure tt
  free_all i (suc left) = do o ← procp_at i; free o; free_all (suc i) left

  -- `main` up to the queue.
  unfoldable pub alloc_test : Test (Unit {0})
  unfolding alloc_all free_all
  alloc_test = do
    change (λ t. record t { kernel = init_pcbs t.kernel })
    addokbuf D "Initialized process control blocks   \n"
    alloc_all 0 maxproc
    o ← alloc P
    fail_if D (non_null o) "allocPcb: allocated more than MAXPROC entries   \n"
    addokbuf D "allocPcb ok   \n"
    free_all 10 10
    addokbuf D "freed 10 entries   \n"

  -- The `switch` of the loop that fills the queue.
  abbrev note : ℕ → Option ℕ → Test (Unit {0})
  note i o =
      if i == 0
      then change (λ t. record t { firstproc = o })
      else if i == 5
      then change (λ t. record t { midproc = o })
      else if i == 9
      then change (λ t. record t { lastproc = o })
      else pure tt

  unfoldable pub insert_all : (i left : ℕ) → Test (Unit {0})
  insert_all i zero = pure tt
  insert_all i (suc left) = do
    o ← alloc P
    change (λ t. record t { q = o })
    fail_if D (is_null o) "allocPcb: unexpected NULL while insert   \n"
    note i o
    insert o
    insert_all (suc i) left

  -- The loop of `removeProcQ`.
  unfoldable pub take_all : ℕ → Test (Unit {0})
  take_all zero = pure tt
  take_all (suc left) = do
    o ← take
    change (λ t. record t { q = o })
    fail_if D (is_null o) "removeProcQ: unexpected NULL   \n"
    free o
    take_all left

  -- The calls of `headProcQ` and `outProcQ`.
  unfoldable pub out_test : Test (Unit {0})
  out_test = do
    o ← head
    first ← (λ t. pure t.firstproc t)
    fail_if D (not (same o first)) "headProcQ failed   \n"
    q1 ← out first
    fail_if D (is_null q1 || not (same q1 first)) "outProcQ failed on first entry   \n"
    free q1
    mid ← (λ t. pure t.midproc t)
    q2 ← out mid
    change (λ t. record t { q = q2 })
    fail_if D (is_null q2 || not (same q2 mid)) "outProcQ failed on middle entry   \n"
    free q2
    o0 ← procp_at 0
    q3 ← out o0
    fail_if D (non_null q3) "outProcQ failed on nonexistent entry   \n"
    addokbuf D "outProcQ ok   \n"

  -- The queue of ten PCBs.
  unfoldable pub queue_test : Test (Unit {0})
  unfolding insert_all take_all out_test
  queue_test = do
    change (λ t. record t { qa = [] })
    e0 ← queue_is_empty
    fail_if D (not e0) "emptyProcQ: unexpected FALSE   \n"
    addokbuf D "Inserting...   \n"
    insert_all 0 10
    addokbuf D "inserted 10 elements   \n"
    e1 ← queue_is_empty
    fail_if D e1 "emptyProcQ: unexpected TRUE\n"
    out_test
    addokbuf D "Removing...   \n"
    take_all 8
    last ← (λ t. pure t.lastproc t)
    q4 ← (λ t. pure t.q t)
    fail_if D (not (same q4 last)) "removeProcQ: failed on last entry   \n"
    q5 ← take
    fail_if D (non_null q5) "removeProcQ: removes too many entries   \n"
    e2 ← queue_is_empty
    fail_if D (not e2) "emptyProcQ: unexpected FALSE   \n"

  -- The queue with priorities.
  unfoldable pub priority_test : Test (Unit {0})
  priority_test = do
    addokbuf D "Stating priority queue tests...   \n"
    p1 ← alloc P
    set_prio p1 20
    insert p1
    p2 ← alloc P
    set_prio p2 10
    insert p2
    p3 ← alloc P
    set_prio p3 5
    insert p3
    p2bis ← alloc P
    set_prio p2bis 10
    insert p2bis
    o1 ← take
    fail_if D (not (same o1 p1)) "removeProcQ: failed, wrong priority order for p1   \n"
    o2 ← take
    fail_if D (not (same o2 p2)) "removeProcQ: failed, wrong priority order for p2   \n"
    o3 ← take
    fail_if D (not (same o3 p2bis)) "removeProcQ: failed, wrong priority order for p2bis   \n"
    o4 ← take
    fail_if D (not (same o4 p3)) "removeProcQ: failed, wrong priority order for p3   \n"
    free p1
    free p2
    free p2bis
    free p3
    addokbuf D "insertProcQ, removeProcQ and emptyProcQ ok   \n"
    addokbuf D "process queues module ok      \n"

  -- The loops of `insertChild` and `removeChild`.
  unfoldable pub adopt_all : (i left : ℕ) → Test (Unit {0})
  adopt_all i zero = pure tt
  adopt_all i (suc left) = do r ← procp_at 0; x ← procp_at i; add_child r x; adopt_all (suc i) left

  unfoldable pub drop_all : ℕ → Test (Unit {0})
  drop_all zero = pure tt
  drop_all (suc left) = do
    r ← procp_at 0
    o ← drop_child r
    fail_if D (is_null o) "removeChild: unexpected NULL   \n"
    drop_all left

  -- The tree of processes.
  unfoldable pub tree_test : Test (Unit {0})
  unfolding adopt_all drop_all free_all
  tree_test = do
    addokbuf D "checking process trees...\n"
    x2 ← procp_at 2
    e0 ← has_no_child x2
    fail_if D (not e0) "emptyChild: unexpected FALSE   \n"
    addokbuf D "Inserting...   \n"
    adopt_all 1 9
    addokbuf D "Inserted 9 children   \n"
    x0 ← procp_at 0
    e1 ← has_no_child x0
    fail_if D e1 "emptyChild: unexpected TRUE   \n"
    x1 ← procp_at 1
    q1 ← leave_tree x1
    fail_if D (is_null q1 || not (same q1 x1)) "outChild failed on first child   \n"
    x4 ← procp_at 4
    q4 ← leave_tree x4
    fail_if D (is_null q4 || not (same q4 x4)) "outChild failed on middle child   \n"
    q0 ← leave_tree x0
    fail_if D (non_null q0) "outChild failed on nonexistent child   \n"
    addokbuf D "outChild ok   \n"
    addokbuf D "Removing...   \n"
    drop_all 7
    q9 ← drop_child x0
    fail_if D (non_null q9) "removeChild: removes too many children   \n"
    e2 ← has_no_child x0
    fail_if D (not e2) "emptyChild: unexpected FALSE   \n"
    addokbuf D "insertChild, removeChild and emptyChild ok   \n"
    addokbuf D "process tree module ok      \n"
    free_all 0 10

module _ (P : Platform) (D : Transmitter) (A : Places) where
  -- The loops of `insertBlocked`, with the message of their failure.
  unfoldable pub block_all : String → (i left : ℕ) → Test (Unit {0})
  block_all failure i zero = pure tt
  block_all failure i (suc left) = do
    o ← alloc P
    set_procp i o
    full ← block (sem_at A i) o
    fail_if D full failure
    block_all failure (suc i) left

  -- The loop of `removeBlocked`.
  unfoldable pub move_all : (i left : ℕ) → Test (Unit {0})
  move_all i zero = pure tt
  move_all i (suc left) = do
    o ← unblock (sem_at A i)
    change (λ t. record t { q = o })
    fail_if D (is_null o) "removeBlocked: wouldn't remove   \n"
    x ← procp_at i
    fail_if D (not (same o x)) "removeBlocked: removed wrong element   \n"
    full ← block (sem_at A (i - 10)) o
    fail_if D full "insertBlocked(3): unexpected TRUE   \n"
    move_all (suc i) left

  -- The calls of `headBlocked` and `outBlocked`.
  unfoldable pub head_test : Test (Unit {0})
  head_test = do
    h11 ← first_blocked (sem_at A 11)
    fail_if D (non_null h11) "headBlocked: nonNULL for a nonexistent queue   \n"
    q1 ← first_blocked (sem_at A 9)
    fail_if D (is_null q1) "headBlocked(1): NULL for an existent queue   \n"
    x9 ← procp_at 9
    fail_if D (not (same q1 x9)) "headBlocked(1): wrong process returned   \n"
    p1 ← out_of_asl q1
    fail_if D (not (same p1 q1)) "outBlocked(1): couldn't remove from valid queue   \n"
    q2 ← first_blocked (sem_at A 9)
    fail_if D (is_null q2) "headBlocked(2): NULL for an existent queue   \n"
    x19 ← procp_at 19
    fail_if D (not (same q2 x19)) "headBlocked(2): wrong process returned   \n"
    p2 ← out_of_asl q2
    fail_if D (not (same p2 q2)) "outBlocked(2): couldn't remove from valid queue   \n"
    p3 ← out_of_asl q2
    fail_if D (non_null p3) "outBlocked: removed same process twice.\n"
    h9 ← first_blocked (sem_at A 9)
    fail_if D (non_null h9) "out/headBlocked: unexpected nonempty queue   \n"
    addokbuf D "headBlocked and outBlocked ok   \n"

  -- The list of semaphores.
  unfoldable pub asl_test : Test (Unit {0})
  unfolding block_all move_all head_test
  asl_test = do
    change (λ t. record t { kernel = init_asl t.kernel })
    addokbuf D "Initialized active semaphore list   \n"
    addokbuf D "insertBlocked test #1 started  \n"
    block_all "insertBlocked(1): unexpected TRUE   \n" 10 10
    addokbuf D "insertBlocked test #2 started  \n"
    block_all "insertBlocked(2): unexpected TRUE   \n" 0 10
    p11 ← unblock (sem_at A 11)
    full ← block (sem_at A 11) p11
    fail_if D full "removeBlocked: fails to return to free list   \n"
    x9 ← procp_at 9
    over ← block A.onesem x9
    fail_if D (not over) "insertBlocked: inserted more than MAXPROC   \n"
    addokbuf D "removeBlocked test started   \n"
    move_all 10 10
    r11 ← unblock (sem_at A 11)
    fail_if D (non_null r11) "removeBlocked: removed nonexistent blocked proc   \n"
    addokbuf D "insertBlocked and removeBlocked ok   \n"
    head_test
    addokbuf D "ASL module ok   \n"
    addokbuf D "So Long and Thanks for All the Fish\n"

  -- `main` of p1test.c
  unfoldable pub p1test : Test (Unit {0})
  unfolding alloc_test queue_test priority_test tree_test asl_test
  p1test = do alloc_test P D; queue_test P D; priority_test P D; tree_test P D; asl_test
