-- ===== src/P1test.antt =====
-- phase1/p1test.c, the test program of phase 1: its terminal, its buffers, and its calls of
-- phase1/pcb.c and phase1/asl.c.
pub mod Drive
pub mod Transmit
mod Tests
use pand_ossh.Common.{
  ==_iff, ==_self, Bool, Bool-cases, List, Option, Option-cases, [], add32, ap, append-nil,
  append_assoc, arith, biased, bind_some, bit_and, bit_or, contains, contains-copies, copies,
  copies-append, copies-remove, false, if◌then◌else◌, inl, inr, is_neg, is_pos, is_some, leb,
  length, length-append, ltb, neg32, none, not, not_contains-copies, refl, remove, remove_absent,
  reverse, reverse-append, reverse-cons, reverse-reverse, sdiv32, slt32, some, srem32, sub32, subst,
  suc, sym, true, update, zero, ℕ, ◌%◌, ◌&&◌, ◌*◌, ◌++◌, ◌+◌, ◌-◌, ◌/◌, ◌<◌, ◌==◌, ◌^◌, ◌||◌, ◌↔◌,
  ◌∙◌, ◌∷◌, ◌≡◌, ◌≢◌, ◌≤◌, ◌⊎◌,
}
use pand_ossh.Testers.{codes}
use pand_ossh.Machine.{Platform, Kernel, set_pcb}
use pand_ossh.Pcb.{
  alloc_pcb, free_pcb, insert_proc_q, head_proc_q, remove_proc_q, out_proc_q, empty_proc_q,
  empty_child, insert_child, remove_child, out_child,
}
use pand_ossh.Asl.{insert_blocked, remove_blocked, out_blocked, head_blocked}
use Prim.Native.String.{String}

-- The transmitter of a terminal: its status at the i-th reading after the n-th command, the readings
-- before any command being those of n = 0. READY, BUSY and DEVPERINT are those of uriscv.
-- `readings` is the fuel: a busy wait is followed for so many readings.
pub record Transmitter : Type 0 where
  pub ready_code : ℕ
  pub busy_code : ℕ
  pub devperint : ℕ
  pub status : ℕ → ℕ → ℕ
  pub readings : ℕ

-- The commands that were written to the transmitter, their number, and the readings of its status
-- since the last of them.
pub record Sent : Type 0 where
  pub commands : List ℕ
  pub count : ℕ
  pub reads : ℕ

-- TRANSMITTED
abbrev pub transmitted : ℕ
transmitted = 5

-- `termstat` of the status that is read next.
abbrev pub termstat : Transmitter → Sent → ℕ
termstat D s = bit_and (D.status s.count s.reads) 0xFF

-- A reading of the status.
abbrev pub read_status : Sent → Sent
read_status s = record s { reads = s.reads + 1 }

-- The busy waiting of `termprint`: the first status that is not BUSY, or none where all readings that
-- the fuel allows are BUSY.
unfoldable pub busy_wait : Transmitter → (fuel : ℕ) → Sent → Option (ℕ × Sent)
busy_wait D zero s = none
busy_wait D (suc fuel) s =
    let rest = busy_wait D fuel (read_status s) in
    if termstat D s == D.busy_code then rest else some (termstat D s, read_status s)

-- `(*str << CHAROFFSET) | PRINTCHR`
abbrev pub print_command : ℕ → ℕ
print_command c = bit_or (c * 2 ^ 8) 2

-- `*commandp = cmd`
abbrev pub send : ℕ → Sent → Sent
send cmd s = record { commands = s.commands ++ cmd ∷ []; count = s.count + 1; reads = 0 }

-- The end of the wait: the next character, or none after an error.
abbrev pub wait_end : (Sent → Option (Bool × Sent)) → ℕ × Sent → Option (Bool × Sent)
wait_end f (stat, s) = let rest = f s in if stat == transmitted then rest else some (false, s)

-- The print cycle of `termprint`.
unfoldable pub print_cycle : Transmitter → List ℕ → Sent → Option (Bool × Sent)
print_cycle D [] s = some (true, s)
print_cycle D (c ∷ cs) s =
    let rest = print_cycle D cs in
    elim (busy_wait D D.readings (send (print_command c) s)) [
      | none ↦ none
      | some r ↦ wait_end rest r
    ]

-- `termprint`; none where a busy wait has not ended.
unfoldable pub termprint : Transmitter → List ℕ → ℕ → Sent → Option (Bool × Sent)
termprint D str term s =
    if ltb term D.devperint
    then if (termstat D s == D.ready_code) || (termstat D s == transmitted)
      then print_cycle D str (read_status s)
      else some (false, read_status s)
    else some (false, s)

-- The globals, with the queue of `main`, and what terminal 0 was sent.
pub record Bench : Type 0 where
  pub kernel : Kernel
  pub okbuf : ℕ → ℕ
  pub mp : ℕ
  pub errbuf : ℕ → ℕ
  pub sent : Sent
  pub procp : ℕ → Option ℕ
  pub p : Option ℕ
  pub q : Option ℕ
  pub firstproc : Option ℕ
  pub midproc : Option ℕ
  pub lastproc : Option ℕ
  pub qa : List ℕ

-- What a part of `main` ends with: a value, the endless loop of `adderrbuf`, a busy wait that has not
-- ended within the fuel, or an access outside of a buffer or through NULL.
pub data Step (A : Type 0) : Type 0 where
  next : A → Bench → Step A
  stopped : Bench → Step A
  still_busy : Step A
  fault : Step A

abbrev pub Test : Type 0 → Type 0
Test A = Bench → Step A

abbrev pub then_do : {A B : Type 0} → Step A → (A → Test B) → Step B
then_do (next a t) f = f a t
then_do (stopped t) f = stopped t
then_do still_busy f = still_busy
then_do fault f = fault

infixl 5 ◌>>=◌ ◌>>◌
abbrev pub ◌>>=◌ : {A B : Type 0} → Test A → (A → Test B) → Test B
◌>>=◌ m f t = then_do (m t) f

abbrev pub ◌>>◌ : {B : Type 0} → Test (Unit {0}) → Test B → Test B
◌>>◌ m k = m >>= λ _. k

abbrev pub pure : {A : Type 0} → A → Test A
pure a t = next a t

abbrev pub change : (Bench → Bench) → Test (Unit {0})
change f t = next tt (f t)

abbrev pub pointer : Option ℕ → Test ℕ
pointer none t = fault
pointer (some a) t = next a t

-- The copy of a string with its NUL into a buffer of the given size, from i on: the buffer and the
-- place of the NUL.
unfoldable pub store : (size i : ℕ) → List ℕ → (ℕ → ℕ) → Option (ℕ × (ℕ → ℕ))
store size i [] s = if ltb i size then some (i, update s i 0) else none
store size i (c ∷ cs) s =
    let rest = store size (suc i) cs (update s i c) in if ltb i size then rest else none

-- `termprint(tstrp, 0)`, whose answer is not used, and what follows it.
abbrev pub after_print : {A : Type 0} → Transmitter → String → (Sent → Step A) → Sent → Step A
after_print D str f s = elim (termprint D (codes str) 0 s) [
  | none ↦ still_busy
  | some (ok, s1) ↦ f s1
]

-- `addokbuf`
unfoldable pub addokbuf : Transmitter → String → Test (Unit {0})
addokbuf D str t = elim (store 2048 t.mp (codes str) t.okbuf) [
  | none ↦ fault
  | some (mp, okbuf) ↦
      after_print D str (λ s. next tt (record t { okbuf = okbuf; mp = mp; sent = s })) t.sent
]

-- `adderrbuf`, which does not return.
unfoldable pub adderrbuf : {A : Type 0} → Transmitter → String → Test A
adderrbuf D str t = elim (store 128 0 (codes str) t.errbuf) [
  | none ↦ fault
  | some (end, errbuf) ↦
      after_print D str (λ s. stopped (record t { errbuf = errbuf; sent = s })) t.sent
]

-- `if (failed) adderrbuf(str)`
abbrev pub fail_if : Transmitter → Bool → String → Test (Unit {0})
fail_if D failed str = if failed then adderrbuf D str else pure tt

-- Calls of pcb.c and asl.c on the kernel of the bench.
abbrev pub alloc : Platform → Test (Option ℕ)
alloc P t = let r = alloc_pcb P t.kernel in next r.0 (record t { kernel = r.1 })

abbrev pub free : Option ℕ → Test (Unit {0})
free o = pointer o >>= λ p. change (λ t. record t { kernel = free_pcb p t.kernel })

abbrev pub insert : Option ℕ → Test (Unit {0})
insert o =
    pointer o >>= λ p. change (λ t. record t { qa = insert_proc_q t.kernel.pcb_table p t.qa })

abbrev pub head : Test (Option ℕ)
head t = next (head_proc_q t.qa) t

abbrev pub take : Test (Option ℕ)
take t = let r = remove_proc_q t.qa in next r.0 (record t { qa = r.1 })

abbrev pub out : Option ℕ → Test (Option ℕ)
out o = pointer o >>= λ p. λ t. let r = out_proc_q p t.qa in next r.0 (record t { qa = r.1 })

abbrev pub queue_is_empty : Test Bool
queue_is_empty t = next (empty_proc_q t.qa) t

abbrev pub has_no_child : Option ℕ → Test Bool
has_no_child o t = next (empty_child o t.kernel) t

abbrev pub add_child : Option ℕ → Option ℕ → Test (Unit {0})
add_child prnt p = change (λ t. record t { kernel = insert_child prnt p t.kernel })

abbrev pub drop_child : Option ℕ → Test (Option ℕ)
drop_child o t = let r = remove_child o t.kernel in next r.0 (record t { kernel = r.1 })

abbrev pub leave_tree : Option ℕ → Test (Option ℕ)
leave_tree o t = let r = out_child o t.kernel in next r.0 (record t { kernel = r.1 })

abbrev pub block : ℕ → Option ℕ → Test Bool
block a o = pointer o >>= λ p.
    λ t. let r = insert_blocked a p t.kernel in next r.0 (record t { kernel = r.1 })

abbrev pub unblock : ℕ → Test (Option ℕ)
unblock a t = elim (remove_blocked a t.kernel) [
  | none ↦ fault
  | some (o, k) ↦ next o (record t { kernel = k })
]

abbrev pub first_blocked : ℕ → Test (Option ℕ)
first_blocked a t = next (head_blocked a t.kernel) t

abbrev pub out_of_asl : Option ℕ → Test (Option ℕ)
out_of_asl o =
    pointer o >>= λ p. λ t. let r = out_blocked p t.kernel in next r.0 (record t { kernel = r.1 })

abbrev pub set_prio : Option ℕ → ℕ → Test (Unit {0})
set_prio o n = pointer o >>= λ p.
    change
      (λ t. record t { kernel = set_pcb p (record (t.kernel.pcb_table p) { p_prio = n }) t.kernel })

-- `a == b` on pointers
abbrev pub same : Option ℕ → Option ℕ → Bool
same none none = true
same none (some b) = false
same (some a) none = false
same (some a) (some b) = a == b

-- `a != NULL`
abbrev pub non_null : Option ℕ → Bool
non_null none = false
non_null (some a) = true

-- `a == NULL`
abbrev pub is_null : Option ℕ → Bool
is_null none = true
is_null (some a) = false

abbrev pub procp_at : ℕ → Test (Option ℕ)
procp_at i t = next (t.procp i) t

abbrev pub set_procp : ℕ → Option ℕ → Test (Unit {0})
set_procp i o = change (λ t. record t { procp = update t.procp i o })
