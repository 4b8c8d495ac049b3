-- ===== src/Nucleus/Devices.antt =====
-- The device interrupts keep the invariant, and end without a fault.
use pand_ossh.Nucleus.Timers.{it_interrupt_handler-Inv, plt_interrupt_handler-Inv}
use pand_ossh.Common.{
  Bool-cases, Option, add32, arith, bit_and, inl, inr, leb, none, refl, some, subst, sym, ℕ, ◌&&◌,
  ◌+◌, ◌==◌, ◌>>=◌, ◌≡◌,
}
use pand_ossh.Pcb.Queue.{copies-insert_proc_q}
use pand_ossh.Nucleus.Dispatch.{dispatch-Inv}
use pand_ossh.Asl.Remove.{remove_blocked-Removed, Removed}
use pand_ossh.Nucleus.Places.{ready-Inv, Inv-same, Preserves, Inv}
use pand_ossh.Machine.{device_sem, store, Kernel, Platform}
use pand_ossh.Interrupts.{
  int_line_no, map_addr, dev_no, serve_device, device_interrupt_handler, interrupt_handler, Ack,
  plt_interrupt_handler, ack_terminal, ack_device, complete, go_on,
}

go_on-Inv : (P : Platform) (o : Option ℕ) (k : Kernel) → k.curr_proc ≡ o → Inv k → Inv (go_on P k).0
unfolding go_on
go_on-Inv P none k e v = rw (e, go_on) (dispatch-Inv P k v e)
go_on-Inv P (some c) k e v = rw (e, go_on) v

complete-Inv :
    (P : Platform) (a status : ℕ) (k : Kernel) (r : Option (Option ℕ × Kernel))
    → Inv k
    → Removed a k r
    → Preserves (r >>= λ x. some (go_on P (complete P a status x)))
unfolding complete
complete-Inv P a status k none v h = h
complete-Inv P a status k (some (none, k1)) v h =
    let k2 = store a (add32 (k1.mem a) 1) k1 in
    go_on-Inv P k2.curr_proc k2 refl
      (Inv-same k1 k2 refl refl refl refl refl refl (subst Inv (sym h.0) v))
complete-Inv P a status k (some (some p, k1)) v (rest, pop) = go_on-Inv P _ _ refl (
    ready-Inv a p rest k k1 _ pop refl refl refl refl refl
      (λ x. copies-insert_proc_q _ x p k1.ready_queue) v)

-- The acknowledgement writes to memory only.
abbrev AckInv : Option Ack → Type 0
AckInv none = Unit {0}
AckInv (some (status, idx, k)) = Inv k

store-Inv : (a v : ℕ) (k : Kernel) → Inv k → Inv (store a v k)
store-Inv a v k h = Inv-same k (store a v k) refl refl refl refl refl refl h

ack_terminal-Inv :
    (P : Platform) (addr idx : ℕ) (k : Kernel) → Inv k → AckInv (ack_terminal P addr idx k)
unfolding ack_terminal
ack_terminal-Inv P addr idx k v = elim (Bool-cases (bit_and (k.mem (addr + 0x8)) 0xFF == 5)) [
  | inl sent ↦ rw sent (store-Inv (addr + 0xC) P.ack k v)
  | inr idle ↦ rw idle (elim (Bool-cases (bit_and (k.mem addr) 0xFF == 5)) [
    | inl got ↦ rw got (store-Inv (addr + 0x4) P.ack k v)
    | inr quiet ↦ rw quiet tt
  ])
]

ack_device-Inv :
    (P : Platform) (line dev : ℕ) (k : Kernel) → Inv k → AckInv (ack_device P line dev k)
unfolding ack_device
ack_device-Inv P line dev k v = elim (Bool-cases (line == 7)) [
  | inl terminal ↦ rw terminal (ack_terminal-Inv P _ _ k v)
  | inr other ↦ rw other (store-Inv _ P.ack k v)
]

serve_device-Inv :
    (P : Platform) (o : Option Ack) (k : Kernel) → Inv k → AckInv o → Preserves (serve_device P o k)
unfolding serve_device
serve_device-Inv P none k v h = go_on-Inv P k.curr_proc k refl v
serve_device-Inv P (some (status, idx, k1)) k v h =
    complete-Inv P (device_sem P idx) status k1 _ h
      (remove_blocked-Removed (device_sem P idx) k1 h.lists)

found_device-Inv :
    (P : Platform) (line : ℕ) (o : Option ℕ) (k : Kernel)
    → Inv k
    → Preserves
        (elim o [ none ↦ some (go_on P k) | some dev ↦ serve_device P (ack_device P line dev k) k ])
found_device-Inv P line none k v = go_on-Inv P k.curr_proc k refl v
found_device-Inv P line (some dev) k v =
    serve_device-Inv P (ack_device P line dev k) k v (ack_device-Inv P line dev k v)

found_line-Inv :
    (P : Platform) (o : Option ℕ) (k : Kernel)
    → Inv k
    → Preserves (elim o [
      | none ↦ some (go_on P k)
      | some line ↦ elim (dev_no (k.mem (map_addr line))) [
        | none ↦ some (go_on P k)
        | some dev ↦ serve_device P (ack_device P line dev k) k
      ]
    ])
found_line-Inv P none k v = go_on-Inv P k.curr_proc k refl v
found_line-Inv P (some line) k v = found_device-Inv P line (dev_no (k.mem (map_addr line))) k v

-- A device interrupt, on any line and with any device status, ends without a fault, and no PCB is
-- lost or doubled.
pub device_interrupt_handler-Inv :
    (P : Platform) (code : ℕ) (k : Kernel) → Inv k → Preserves (device_interrupt_handler P code k)
unfolding device_interrupt_handler
device_interrupt_handler-Inv P code k v = found_line-Inv P (int_line_no code) k v

-- Every interrupt keeps the invariant and ends without a fault, if a process runs whenever it is
-- the processor timer that interrupts.
pub interrupt_handler-Inv :
    (P : Platform) (k : Kernel)
    → Inv k
    → (bit_and k.exc_state.cause P.cause_exccode_mask ≡ 7 → (c : ℕ) × (k.curr_proc ≡ some c))
    → Preserves (interrupt_handler P k)
unfolding interrupt_handler
interrupt_handler-Inv P k v running =
    let code = bit_and k.exc_state.cause P.cause_exccode_mask in
    elim (Bool-cases (code == 7)) [
      | inl plt ↦
          let (c, e) = running (ground arith) in rw plt (plt_interrupt_handler-Inv P c k v e)
      | inr not_plt ↦ rw not_plt (elim (Bool-cases (code == 3)) [
        | inl it ↦ rw it (it_interrupt_handler-Inv P k v)
        | inr not_it ↦ rw not_it (elim (Bool-cases (leb 17 code && leb code 21)) [
          | inl dev ↦ rw dev (device_interrupt_handler-Inv P code k v)
          | inr other ↦ rw other v
        ])
      ])
    ]

-- Without a running process the processor timer's handler reads through a null pointer: its test
-- for NULL stands behind the access.
pub plt_null : (P : Platform) (k : Kernel) → k.curr_proc ≡ none → plt_interrupt_handler P k ≡ none
unfolding plt_interrupt_handler
plt_null P k e = rw e
