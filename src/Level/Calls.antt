-- ===== src/Level/Calls.antt =====
-- phase3/src/syscalls.c, sysSupport.c and initProc.c: the system calls of U-procs, and the process
-- that starts them.
use pand_ossh.Level.Vm.{free_swap_frames, init_swap_pool}
use pand_ossh.Level.Uproc.{create_uproc, valid_asid}
use pand_ossh.Machine.{set_reg, wordlen, general_except, State}
use pand_ossh.Level.{
  terminated, resumed, term_process, get_support_ptr, verhogen, do_io, panicked, passeren, call,
  userstacktop, call_effect, set_support, shell_asid, End, kuseg, Services, maxstrleng, Level,
}
use pand_ossh.Common.{
  Bool, Option, add32, bit_and, bit_or, if◌then◌else◌, is_neg, leb, ltb, neg32, none, not, some,
  sub32, suc, update, zero, ℕ, ◌%◌, ◌*◌, ◌+◌, ◌/◌, ◌==◌, ◌>>=◌, ◌^◌, ◌||◌,
}

-- OKCHARTRANS and CHARRECV
abbrev pub char_done : ℕ
char_done = 5

-- TRANSMITCHAR and RECEIVECHAR
abbrev pub char_command : ℕ
char_command = 2

-- `-((int)(status & 0xFF))`
abbrev pub failure : ℕ → ℕ
failure status = neg32 (bit_and status 0xFF)

-- The loop of `writeTerminal`, with n characters left.
unfoldable pub write_chars : Services → (str i transmitted n : ℕ) → Level → ℕ × Level
write_chars E str i transmitted zero l =
    (transmitted, call_effect E (verhogen E.term_write_semaphore) l)
write_chars E str i transmitted (suc n) l =
    let cmd = bit_or (l.chars (add32 str i) % 2 ^ 8 * 2 ^ 8) char_command in
    let status = (call E (do_io (E.terminal + 12) cmd) l).0 in
    let l1 = (call E (do_io (E.terminal + 12) cmd) l).1 in
    let rest = write_chars E str (suc i) (suc transmitted) n l1 in
    if bit_and status 0xFF == char_done
    then rest
    else (failure status, call_effect E (verhogen E.term_write_semaphore) l1)

-- The passes of `for (int i = 0; i < len; i++)`, none for a negative len.
abbrev pub loop_count : ℕ → ℕ
loop_count len = if is_neg len then 0 else len

-- `writeTerminal`
unfoldable pub write_terminal : Services → (str len : ℕ) → Level → ℕ × Level
write_terminal E str len l =
    write_chars E str 0 0 (loop_count len) (call_effect E (passeren E.term_write_semaphore) l)

-- `buf[received] = c` below MAXSTRLENG, and the number of characters received
unfoldable pub keep_char : (buf received c : ℕ) → Level → ℕ × Level
keep_char buf received c l =
    if ltb received maxstrleng
    then (received + 1, record l { chars = update l.chars (add32 buf received) c })
    else (received, l)

-- The loop of `readTerminal`, for at most `fuel` characters.
unfoldable pub read_chars : Services → (fuel buf received : ℕ) → Level → Option (ℕ × Level)
read_chars E zero buf received l = none
read_chars E (suc fuel) buf received l =
    let status = (call E (do_io (E.terminal + 4) char_command) l).0 in
    let l1 = (call E (do_io (E.terminal + 4) char_command) l).1 in
    let c = bit_and (status / 2 ^ 8) 0xFF in
    let kept = keep_char buf received c l1 in
    let rest = read_chars E fuel buf kept.0 kept.1 in
    if not (bit_and status 0xFF == char_done)
    then some (failure status, call_effect E (verhogen E.term_read_semaphore) l1)
    else if c == 10
    then some (kept.0, call_effect E (verhogen E.term_read_semaphore) kept.1)
    else rest

-- `readTerminal`
unfoldable pub read_terminal : Services → (fuel buf : ℕ) → Level → Option (ℕ × Level)
read_terminal E fuel buf l =
    read_chars E fuel buf 0 (call_effect E (passeren E.term_read_semaphore) l)

-- The mutex of the swap pool goes back if the process holds it.
unfoldable pub release_swap_mutex : Services → ℕ → Level → Level
release_swap_mutex E asid l =
    if l.holding_swap_mutex (sub32 asid 1) == 0
    then l
    else call_effect E (verhogen E.swap_semaphore)
        (record l { holding_swap_mutex = update l.holding_swap_mutex (sub32 asid 1) 0 })

-- The semaphore that waits for the process.
unfoldable pub awaited_by : Services → ℕ → ℕ
awaited_by E asid = if asid == shell_asid then E.master_semaphore else E.shell_semaphore

-- `sys2`
unfoldable pub sys2 : Services → ℕ → Level → End
sys2 E sup l =
    let asid = (l.supports sup).sup_asid in
    let l1 = release_swap_mutex E asid l in
    let l2 = call_effect E (verhogen (awaited_by E asid)) l1 in
    let l3 = free_swap_frames E asid l2 in (call_effect E term_process l3, terminated)

-- `sup_exceptState[GENERALEXCEPT]`
abbrev pub exc_of : ℕ → Level → State
exc_of sup l = (l.supports sup).sup_except_state general_except

abbrev pub set_exc : ℕ → State → Level → Level
set_exc sup s l =
    let old = l.supports sup in
    set_support sup (record old { sup_except_state = update old.sup_except_state general_except s })
      l

-- `excState->reg_a0 = v`, and LDST
unfoldable pub give_back : Services → (sup v : ℕ) → Level → End
give_back E sup v l =
    let l1 = set_exc sup (set_reg E.platform.reg_a0 v (exc_of sup l)) l in
    (l1, resumed (exc_of sup l1))

-- The tests of `sys4`.
unfoldable pub outside : (str len : ℕ) → Bool
outside str len = ltb str kuseg || ltb userstacktop (add32 str len)

unfoldable pub too_long : ℕ → Bool
too_long len = is_neg len || ltb maxstrleng len

-- `sys4`
unfoldable pub sys4 : Services → ℕ → Level → End
sys4 E sup l =
    let str = (exc_of sup l).gpr E.platform.reg_a1 in
    let len = (exc_of sup l).gpr E.platform.reg_a2 in
    if outside str len
    then sys2 E sup l
    else if too_long len
    then sys2 E sup l
    else (let r = write_terminal E str len l in give_back E sup r.0 r.1)

-- `sys5`
unfoldable pub sys5 : Services → ℕ → ℕ → Level → Option End
sys5 E fuel sup l =
    let buf = (exc_of sup l).gpr E.platform.reg_a1 in
    if ltb buf kuseg || leb userstacktop buf
    then some (sys2 E sup l)
    else (read_terminal E fuel buf l >>= λ r. some (give_back E sup r.0 r.1))

-- What `sys6` does with the result of `createUProc`.
unfoldable pub wait_child : Services → ℕ → Option (ℕ × Level) → Level → End
wait_child E sup none l = (l, panicked)
wait_child E sup (some (pid, l1)) l =
    if pid == neg32 1
    then sys2 E sup l1
    else (let l2 = call_effect E (passeren E.shell_semaphore) l1 in (l2, resumed (exc_of sup l2)))

-- `sys6`
unfoldable pub sys6 : Services → ℕ → Level → End
sys6 E sup l =
    let asid = (exc_of sup l).gpr E.platform.reg_a1 in
    if not ((l.supports sup).sup_asid == shell_asid)
    then sys2 E sup l
    else if not (valid_asid asid) || (asid == shell_asid)
    then sys2 E sup l
    else wait_child E sup (create_uproc E asid l) l

-- `programTrapHandler`
unfoldable pub program_trap_handler : Services → ℕ → Level → End
program_trap_handler E sup l = sys2 E sup l

-- `pos_syscallHandler`
unfoldable pub pos_syscall_handler : Services → (fuel sup : ℕ) → Level → Option End
pos_syscall_handler E fuel sup l =
    let s = exc_of sup l in
    let num = s.gpr E.platform.reg_a0 in
    let l1 = set_exc sup (record s { pc_epc = add32 s.pc_epc wordlen }) l in
    if num == 2
    then some (sys2 E sup l1)
    else if num == 4
    then some (sys4 E sup l1)
    else if num == 5
    then sys5 E fuel sup l1
    else if num == 6
    then some (sys6 E sup l1)
    else some (sys2 E sup l1)

-- `generalExceptionHandler`
unfoldable pub general_exception_handler : Services → ℕ → Level → Option End
general_exception_handler E fuel l =
    let sup = (call E get_support_ptr l).0 in
    let l1 = (call E get_support_ptr l).1 in
    let exc_code = bit_and (exc_of sup l1).cause E.platform.cause_exccode_mask in
    if (exc_code == 8) || (exc_code == 11)
    then pos_syscall_handler E fuel sup l1
    else some (program_trap_handler E sup l1)

-- What `test` does with the result of `createUProc`.
unfoldable pub wait_shell : Services → Option (ℕ × Level) → Level → End
wait_shell E none l = (l, panicked)
wait_shell E (some (pid, l1)) l =
    if pid == neg32 1
    then (l1, panicked)
    else (call_effect E term_process (call_effect E (passeren E.master_semaphore) l1), terminated)

-- `test` of phase3/src/initProc.c
unfoldable pub test : Services → Level → End
test E l =
    let m0 = update (update l.mem E.master_semaphore 0) E.shell_semaphore 0 in
    let m1 = update (update m0 E.term_write_semaphore 1) E.term_read_semaphore 1 in
    let l1 = init_swap_pool E (record l { mem = m1 }) in
    wait_shell E (create_uproc E shell_asid l1) l1
