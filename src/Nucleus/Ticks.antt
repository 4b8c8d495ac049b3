-- ===== src/Nucleus/Ticks.antt =====
-- The interrupt handlers of the nucleus keep `softBlock_count` right.
use pand_ossh.Common.{
  ==_iff, Bool-cases, Option, add32, ap, arith, bind_some, bit_and, inl, inr, leb, length, none,
  refl, some, subst, suc, sym, ℕ, ◌&&◌, ◌*◌, ◌+◌, ◌-◌, ◌<◌, ◌==◌, ◌>>=◌, ◌≡◌, ◌≤◌,
}
use pand_ossh.Nucleus.Count.{device-Popped}
use pand_ossh.Nucleus.Soft.{
  soft_blocked, Counts, dispatch-Counts, Counted, soft_blocked-le, device-soft_blocked,
}
use pand_ossh.Nucleus.Places.{Inv, Inv-same}
use pand_ossh.Nucleus.Timers.{unblock_all-Unblocks, Unblocks}
use pand_ossh.Asl.Remove.{Removed, remove_blocked-Removed}
use pand_ossh.Asl.Waiting.{waiting}
use pand_ossh.Scheduler.{dispatch}
use pand_ossh.Interrupts.{
  serve_device, complete, go_on, Ack, it_interrupt_handler, plt_interrupt_handler, requeue,
  device_interrupt_handler, interrupt_handler, requeue_current, ack_device, ack_terminal,
  int_line_no, dev_no, map_addr,
}
use pand_ossh.Machine.{maxproc, Platform, Kernel, device_sem, nsuppsem, psecond, store}

go_on-Counted :
    (P : Platform) (o : Option ℕ) (k : Kernel)
    → k.curr_proc ≡ o
    → soft_blocked P k.asl ≤ maxproc
    → Counted P k
    → Counts P (some (go_on P k))
unfolding go_on
go_on-Counted P none k e few n = rw (e, go_on) (dispatch-Counts P k few n)
go_on-Counted P (some c) k e few n = rw (e, go_on) (n, tt)

complete-Counted :
    (P : Platform) (a j status : ℕ) (k : Kernel) (r : Option (Option ℕ × Kernel))
    → j < suc nsuppsem
    → a ≡ device_sem P j
    → Inv k
    → Counted P k
    → Removed a k r
    → Counts P (r >>= λ x. some (go_on P (complete P a status x)))
unfolding complete
complete-Counted P a j status k none w at v n h = h
complete-Counted P a j status k (some (none, k1)) w at v n h =
    go_on-Counted P _ (store a (add32 (k1.mem a) 1) k1) refl
      (subst (λ (j : Kernel). soft_blocked P j.asl ≤ maxproc) (sym h.0) (soft_blocked-le P k v))
      (subst (Counted P) (sym h.0) n)
complete-Counted P a j status k (some (some p, k1)) w at v n (rest, pop) =
    let left = device-Popped P a j p rest k k1 pop w at v n in
    go_on-Counted P _ _ refl left.1 left.0

-- The acknowledgement names one of `device_semaphores`.
abbrev Acks : Platform → Kernel → Option Ack → Type 0
Acks P k none = Unit {0}
Acks P k (some (status, idx, k1)) = (idx < nsuppsem) × Inv k1 × Counted P k1

store-Acked :
    (P : Platform) (a v : ℕ) (k : Kernel)
    → Inv k
    → Counted P k
    → Inv (store a v k) × Counted P (store a v k)
store-Acked P a v k h n = (Inv-same k (store a v k) refl refl refl refl refl refl h, n)

ack_terminal-Acks :
    (P : Platform) (addr idx : ℕ) (k : Kernel)
    → idx + P.devperint < nsuppsem
    → Inv k
    → Counted P k
    → Acks P k (ack_terminal P addr idx k)
unfolding ack_terminal
ack_terminal-Acks P addr idx k w v n = elim (Bool-cases (bit_and (k.mem (addr + 0x8)) 0xFF == 5)) [
  | inl sent ↦ rw sent (let s = store-Acked P (addr + 0xC) P.ack k v n in (w, s.0, s.1))
  | inr idle ↦ rw idle (elim (Bool-cases (bit_and (k.mem addr) 0xFF == 5)) [
    | inl got ↦
        rw got (let s = store-Acked P (addr + 0x4) P.ack k v n in (omega (arith, w), s.0, s.1))
    | inr quiet ↦ rw quiet tt
  ])
]

ack_device-Acks :
    (P : Platform) (line dev : ℕ) (k : Kernel)
    → P.devperint ≡ 8
    → line < 8
    → dev < 8
    → Inv k
    → Counted P k
    → Acks P k (ack_device P line dev k)
unfolding ack_device
ack_device-Acks P line dev k eight l d v n =
    let scaled : (line - 3) * P.devperint ≡ (line - 3) * 8 = ap (λ m. (line - 3) * m) eight in
    elim (Bool-cases (line == 7)) [
      | inl terminal ↦
          rw terminal (ack_terminal-Acks P _ _ k (omega (arith, scaled, eight, l, d)) v n)
      | inr other ↦
          let lower : line < 7 = ground (arith, l, other) in
          rw other
            (let s = store-Acked P _ P.ack k v n in (omega (arith, scaled, lower, d), s.0, s.1))
    ]

serve_device-Counted :
    (P : Platform) (o : Option Ack) (k : Kernel)
    → Inv k
    → Counted P k
    → Acks P k o
    → Counts P (serve_device P o k)
unfolding serve_device
serve_device-Counted P none k v n h = go_on-Counted P k.curr_proc k refl (soft_blocked-le P k v) n
serve_device-Counted P (some (status, idx, k1)) k _ n (w, v, m) =
    complete-Counted P (device_sem P idx) idx status k1 _ (omega (arith, w)) refl v m
      (remove_blocked-Removed (device_sem P idx) k1 v.lists)

-- The numbers of lines and devices.
abbrev Below : ℕ → Option ℕ → Type 0
Below n none = Unit {0}
Below n (some i) = i < n

int_line_no-Below : (c : ℕ) → Below 8 (int_line_no c)
unfolding int_line_no
int_line_no-Below c = ground arith

dev_no-Below : (m : ℕ) → Below 8 (dev_no m)
unfolding dev_no
dev_no-Below m = ground arith

found_device-Counted :
    (P : Platform) (line : ℕ) (o : Option ℕ) (k : Kernel)
    → P.devperint ≡ 8
    → line < 8
    → Below 8 o
    → Inv k
    → Counted P k
    → Counts P
        (elim o [ none ↦ some (go_on P k) | some dev ↦ serve_device P (ack_device P line dev k) k ])
found_device-Counted P line none k eight l d v n =
    go_on-Counted P k.curr_proc k refl (soft_blocked-le P k v) n
found_device-Counted P line (some dev) k eight l d v n =
    serve_device-Counted P (ack_device P line dev k) k v n
      (ack_device-Acks P line dev k eight l d v n)

found_line-Counted :
    (P : Platform) (o : Option ℕ) (k : Kernel)
    → P.devperint ≡ 8
    → Below 8 o
    → Inv k
    → Counted P k
    → Counts P (elim o [
      | none ↦ some (go_on P k)
      | some line ↦ elim (dev_no (k.mem (map_addr line))) [
        | none ↦ some (go_on P k)
        | some dev ↦ serve_device P (ack_device P line dev k) k
      ]
    ])
found_line-Counted P none k eight l v n =
    go_on-Counted P k.curr_proc k refl (soft_blocked-le P k v) n
found_line-Counted P (some line) k eight l v n =
    found_device-Counted P line (dev_no (k.mem (map_addr line))) k eight l (dev_no-Below _) v n

-- The tick of the clock.
requeue_current-Counted :
    (P : Platform) (o : Option ℕ) (k : Kernel)
    → soft_blocked P k.asl ≤ maxproc
    → Counted P k
    → Counts P (some (dispatch P (requeue_current P o k)))
unfolding requeue_current requeue
requeue_current-Counted P none k few n = dispatch-Counts P k few n
requeue_current-Counted P (some c) k few n = dispatch-Counts P (requeue P c k) few n

tick-Counts :
    (P : Platform) (k : Kernel) (o : Option Kernel)
    → Inv k
    → Counted P k
    → Unblocks (device_sem P nsuppsem) k o
    → Counts P (
        o >>= λ k2.
        let k3 = store (device_sem P nsuppsem) 0 k2 in
        some (dispatch P (requeue_current P k3.curr_proc k3)))
tick-Counts P k none v n u = u
tick-Counts P k (some k2) v n u =
    let a = device_sem P nsuppsem in
    let moved =
      device-soft_blocked P k k2 a (λ b ne. u.queues b (λ e. ne (sym e))) nsuppsem (omega arith)
        refl in
    let gone : length (waiting a k2.asl) ≡ 0 = ap length u.empty in
    requeue_current-Counted P k2.curr_proc (store a 0 k2) (soft_blocked-le P k2 u.inv) (
      omega (
        arith,
        u.soft,
        u.word (omega (arith, n, soft_blocked-le P k v)),
        n,
        moved,
        gone,
        soft_blocked-le P k v,
      ))

-- Every interrupt, if a process runs whenever it is the processor timer that interrupts.
pub interrupt_handler-Counted :
    (P : Platform) (k : Kernel)
    → P.devperint ≡ 8
    → Inv k
    → Counted P k
    → (bit_and k.exc_state.cause P.cause_exccode_mask ≡ 7 → (c : ℕ) × (k.curr_proc ≡ some c))
    → Counts P (interrupt_handler P k)
unfolding interrupt_handler plt_interrupt_handler it_interrupt_handler device_interrupt_handler
    requeue
interrupt_handler-Counted P k eight v n running =
    let code = bit_and k.exc_state.cause P.cause_exccode_mask in
    let k1 = record k { interval = psecond } in
    let v1 : Inv k1 = Inv-same k k1 refl refl refl refl refl refl v in
    let sem = device_sem P nsuppsem in
    elim (Bool-cases (code == 7)) [
      | inl plt ↦
          let (c, e) = running ((==_iff code 7).0 plt) in
          rw plt
            (subst (Counts P) (sym (bind_some _ e)) (dispatch-Counts P _ (soft_blocked-le P k v) n))
      | inr not_plt ↦ rw not_plt (elim (Bool-cases (code == 3)) [
        | inl it ↦ rw it (
            tick-Counts P k1 _ v1 n
              (unblock_all-Unblocks (suc (length (waiting sem k.asl))) sem k1 v1 (omega arith)))
        | inr not_it ↦ rw not_it (elim (Bool-cases (leb 17 code && leb code 21)) [
          | inl dev ↦
              rw dev (found_line-Counted P (int_line_no code) k eight (int_line_no-Below code) v n)
          | inr other ↦ rw other (n, tt)
        ])
      ])
    ]
