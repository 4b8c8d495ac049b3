-- ===== src/Klog/Tests.antt =====
-- The log at the end of its last line.
use pand_ossh.Klog.Bounds.{
  klog_print_dec-Written, klog_print-Inside, backwards, IsLog, Inside, Written,
}
use pand_ossh.Klog.{klog_print_dec, digit, klog_print, Klog}
use pand_ossh.Common.{[], arith, if◌then◌else◌, leb, ◌∷◌}

abbrev log : Klog
log = record { line_index = 63; char_index = 41; buffer = λ _ _. 0 }

log-IsLog : IsLog log
log-IsLog = record { line = omega arith; char = omega arith }

klog_print-Inside_example :
    IsLog (klog_print (72 ∷ 105 ∷ 10 ∷ []) log) × Inside log (klog_print (72 ∷ 105 ∷ 10 ∷ []) log)
klog_print-Inside_example = klog_print-Inside (72 ∷ 105 ∷ 10 ∷ []) log log-IsLog

klog_print_dec-Written_example :
    Written log
      (if leb 10 12 then backwards 10 13 12 else digit 0 ∷ digit 12 ∷ [])
      (klog_print_dec 12 log)
klog_print_dec-Written_example = klog_print_dec-Written 12 log log-IsLog
