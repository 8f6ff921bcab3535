-- ===== src/Receivers/MemoryTracker/Report/Tests.antt =====
-- A report of two tests, one of which leaks.
use embedded_bridge.Prelude.{◌≡◌, refl, [], ◌∷◌, ◌++◌}
use embedded_bridge.Prelude.Int.{pos, negsuc}
use embedded_bridge.Text.Literal.{codes}
use embedded_bridge.Receivers.MemoryTracker.{init, leaks, below}
use embedded_bridge.Receivers.MemoryTracker.Report.{
  report, report_of, join_lines, report_line, shown_signed, shown, digits, sorted, insert_sorted,
}

report_two :
    report (record (init (negsuc 999)) {
      data_of =
          (
            codes "a",
            record {
              free_before = pos 9000;
              min_before = pos 0;
              free_after = pos 7950;
              min_after = pos 0;
              delta = negsuc 1049;
            },
          )
          ∷ (
            codes "b",
            record {
              free_before = pos 5;
              min_before = pos 0;
              free_after = pos 5;
              min_after = pos 0;
              delta = pos 0;
            },
          )
          ∷ [];
    })
    ≡ codes "Memory Report:" ++ (10 ∷ codes "  a: -1050 bytes (free: 9000 -> 7950)")
unfolding report report_of join_lines report_line shown_signed shown digits sorted insert_sorted
    leaks below init
report_two = refl
